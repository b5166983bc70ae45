-- ===== src/Retention/Pass.antt =====
-- app/retention.py, `_do_retention` as one transition, and `_resolve_policy`.
use wdc_catalog_api.Base.{
  ℕ, ◌+◌, ◌≤◌, ◌≡◌, refl, Bool, List, [], ◌∷◌, is_some, find?-delete_where_ne, delete_where, length,
  arith, subst, sym, ◌∙◌, ap,
}
use wdc_catalog_api.Schema.{Db, Account, SnapshotRetentionPolicy}
use wdc_catalog_api.Session.{World, ok}
use wdc_catalog_api.Purge.{purge_auto_older_than}
use wdc_catalog_api.Purge.Frame.{
  UniqueSnapshots, OnlySnapshots, OnlySnapshots-refl, OnlySnapshots-trans, purge-OnlySnapshots,
}
use wdc_catalog_api.Purge.Chunks.{HeadsValid}
use wdc_catalog_api.Purge.Heads.{purge-HeadsValid}
use wdc_catalog_api.Retention.{
  resolve_policy, is_account_wide, sweep_all, purge_accounts, do_retention,
}
use wdc_catalog_api.Retention.Sweep.{KeysValid, swept, summary_of, sweep_all_lem}

module _ (ties : ℕ → ℕ → Bool) (batch now : ℕ) (some_rows : 1 ≤ batch) where
  purge_accounts_lem :
      (accounts : List Account) (w : World)
      → UniqueSnapshots w.working
      → HeadsValid w.working
      → (n : ℕ) × ((purge_accounts ties batch now accounts w).0 ≡ ok n)
        × OnlySnapshots w (purge_accounts ties batch now accounts w).1
        × HeadsValid (purge_accounts ties batch now accounts w).1.working
  unfolding purge_accounts
  purge_accounts_lem [] w unique valid = (0, refl, OnlySnapshots-refl w unique, valid)
  purge_accounts_lem (account ∷ accounts) w unique valid =
      let rule = resolve_policy account.id w.working in
      let w' = (purge_auto_older_than ties rule now w).1 in
      let (answer, done, _, valid', _) = purge-HeadsValid ties rule now w unique valid in
      let only = purge-OnlySnapshots ties rule now w unique in
      let (n, done', only', valid'') = purge_accounts_lem accounts w' only.unique valid' in
      (
        answer.0 + n,
        rw (purge_accounts, done, done') refl,
        rw (purge_accounts, done, done') (OnlySnapshots-trans only only'),
        rw (purge_accounts, done, done') valid'',
      )

  retention_in_turn :
      (w : World) (n : ℕ)
      → (purge_accounts ties batch now w.working.accounts w).0 ≡ ok n
      → do_retention ties batch now w
        ≡ sweep_all ties batch now
            (length w.working.accounts)
            n
            (purge_accounts ties batch now w.working.accounts w).1
  unfolding do_retention
  retention_in_turn w n done = ground (arith, done)

  -- With pages of at least one row, distinct primary keys, and every HEAD at a snapshot of its
  -- device, a retention pass returns: no loop runs on, nothing raises. It takes exactly the rows out
  -- that are over at its instant by the days of the global policy, counts them in its summary, leaves
  -- every other table but the snapshots alone, and every HEAD is still at a snapshot of its device.
  pub do_retention_lem :
      (w : World)
      → KeysValid w.working
      → UniqueSnapshots w.working
      → HeadsValid w.working
      → (deleted : ℕ) × ((do_retention ties batch now w).0
          ≡ ok (summary_of now (length w.working.accounts) deleted w.working))
        × ((do_retention ties batch now w).1.working
            ≡ swept now (record w.working {
              snapshots = (do_retention ties batch now w).1.working.snapshots;
            }))
        × HeadsValid (do_retention ties batch now w).1.working
        × ((do_retention ties batch now w).1.committed ≡ w.committed)
  do_retention_lem w keys unique valid =
      let (n, done, only, valid') = purge_accounts_lem w.working.accounts w unique valid in
      let w1 = (purge_accounts ties batch now w.working.accounts w).1 in
      let all =
        retention_in_turn w n done
        ∙ sweep_all_lem ties batch now some_rows (length w.working.accounts) n w1
            (subst KeysValid (sym only.frame) keys) in
      (
        n,
        rw all (ap (λ (db : Db). ok (summary_of now (length w.working.accounts) n db)) only.frame),
        rw all (ap (λ (db : Db). swept now db) only.frame),
        rw all valid',
        rw all only.durable,
      )

-- The policy that the pass applies to an account does not depend on the rows for single devices:
-- without them it is the same.
pub resolve_policy-delete_where :
    (account_id : ℕ) (db : Db)
    → resolve_policy account_id (record db {
      policies = delete_where (λ (p : SnapshotRetentionPolicy). is_some p.device_id) db.policies;
    })
      ≡ resolve_policy account_id db
unfolding resolve_policy
resolve_policy-delete_where account_id db =
    rw
      (
        resolve_policy,
        find?-delete_where_ne (is_account_wide account_id)
            (λ (p : SnapshotRetentionPolicy). is_some p.device_id) (λ p h. ground (arith, h))
            db.policies,
      )
      refl
