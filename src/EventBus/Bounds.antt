-- ===== src/EventBus/Bounds.antt =====
-- app/event_bus.py: the sizes of the registry and of its queues.
use wdc_catalog_api.Base.{
  ℕ, zero, suc, ◌≤◌, ◌<◌, ◌≡◌, refl, Bool, true, false, Option, none, some, List, [], ◌∷◌, ◌++◌,
  if◌then◌else◌, leb, ◌==◌, length, take, drop, update_where, All, All-append, All-update_where,
  All-delete_where, length-append, length-take, length-drop, length-update_where,
  length-delete_where, leb→le, lt→ltb, arith, Bool-cases, inl, inr, ap, ◌∙◌,
}
use wdc_catalog_api.Session.{ok}
use wdc_catalog_api.EventBus.{
  Subscriber, EventBus, max_subscribers, queue_maxsize, deliver, subscriber_by_id, deliver_to,
  register, unregister, publish_to, publish_all, publish, run_callback, drain,
}

-- Events that were delivered to a new queue without a read in between, the latest first.
pub deliver_history : {E : Type 0} → ℕ → List E → List E
deliver_history size [] = []
deliver_history size (event ∷ before) = deliver size event (deliver_history size before)

pub reversed : {A : Type 0} → List A → List A
reversed [] = []
reversed (x ∷ xs) = reversed xs ++ x ∷ []

module _ {E : Type 0} where
  length-reversed : (xs : List E) → length (reversed xs) ≡ length xs
  unfolding reversed
  length-reversed [] = refl
  length-reversed (x ∷ xs) = omega (arith, length-append (reversed xs) (x ∷ []), length-reversed xs)

  drop-append_more :
      (x : E) (xs : List E) → 1 ≤ length xs → drop 1 (xs ++ x ∷ []) ≡ drop 1 xs ++ x ∷ []
  drop-append_more x [] h = absurd (omega (arith, h))
  drop-append_more x (y ∷ xs) h = refl

  -- dropping the oldest of the newest n + 1
  drop-reversed :
      (n : ℕ) (xs : List E)
      → n < length xs
      → drop 1 (reversed (take (suc n) xs)) ≡ reversed (take n xs)
  unfolding reversed
  drop-reversed n [] h = absurd (omega (arith, h))
  drop-reversed zero (x ∷ xs) h = refl
  drop-reversed (suc n) (x ∷ xs) h =
      drop-append_more x (reversed (take (suc n) xs))
        (omega (arith, h, length-reversed (take (suc n) xs), length-take (suc n) xs))
      ∙ ap (λ r. r ++ x ∷ []) (drop-reversed n xs (omega (arith, h)))

  take-all : (n : ℕ) (xs : List E) → length xs ≤ n → take n xs ≡ xs
  take-all zero [] h = refl
  take-all zero (x ∷ xs) h = absurd (omega (arith, h))
  take-all (suc n) [] h = refl
  take-all (suc n) (x ∷ xs) h = ap (λ r. x ∷ r) (take-all n xs (omega (arith, h)))

  deliver_full :
      (size : ℕ) (event : E) (before : List E)
      → size < length before
      → deliver (suc size) event (reversed (take (suc size) before))
        ≡ reversed (take size before) ++ event ∷ []
  unfolding deliver
  deliver_full size event before many =
      let full = length-reversed (take (suc size) before) in
      let cut = length-take (suc size) before in
      let rest = length-reversed (take size before) in
      let cut' = length-take size before in
      let shorter = drop-reversed size before many in
      ground (arith, many, full, cut, rest, cut', shorter)

  -- A queue with room for at least one event holds the newest events that were delivered to it, as
  -- many as it has room for, the oldest of them first: what was lost is the oldest.
  pub deliver_history_lem :
      (size : ℕ) (events : List E)
      → deliver_history (suc size) events ≡ reversed (take (suc size) events)
  unfolding deliver_history deliver reversed
  deliver_history_lem size [] = refl
  deliver_history_lem size (event ∷ before) =
      rw (deliver_history_lem size before) (elim (Bool-cases (leb (length before) size)) [
        | inl few ↦
            let short = leb→le _ _ few in
            rw
              (
                take-all size before short,
                take-all (suc size) before (omega (arith, short)),
                lt→ltb (length (reversed before)) (suc size)
                    (omega (arith, short, length-reversed before)),
              )
              refl
        | inr many ↦ deliver_full size event before (ground (arith, many))
      ])

  -- What a run of the process keeps of the bus.
  pub record BusValid (bus : EventBus E) : Type 0 where
    pub few : length bus.subscribers ≤ max_subscribers
    pub bounded : All (λ (s : Subscriber E). length s.queue ≤ queue_maxsize) bus.subscribers

  length-deliver :
      (size : ℕ) (event : E) (queue : List E)
      → length queue ≤ size
      → length (deliver size event queue) ≤ size
  unfolding deliver
  length-deliver size event queue h = ground (
    arith,
    h,
    length-append queue (event ∷ []),
    length-append (drop 1 queue) (event ∷ []),
    length-drop 1 queue,
  )

  deliver_to-BusValid :
      (id : ℕ) (event : E) (bus : EventBus E) (later : List (ℕ × E))
      → BusValid bus
      → BusValid (record {
        subscribers = update_where (subscriber_by_id id) (deliver_to event) bus.subscribers;
        scheduled = later;
      })
  deliver_to-BusValid id event bus later valid = record {
    few =
        rw (length-update_where (subscriber_by_id id) (deliver_to event) bus.subscribers) valid.few;
    bounded =
        All-update_where _ (subscriber_by_id id) (deliver_to event)
          (λ s h hit. length-deliver queue_maxsize event s.queue h) bus.subscribers valid.bounded;
  }

-- One thing that happens to the bus: a connection comes or goes, a thread publishes, a loop runs a
-- callback, a connection takes an event.
pub data BusStep {E : Type 0} : EventBus E → EventBus E → Type 0 where
  register_step :
      {bus after : EventBus E} (id loop : ℕ) → register id loop bus ≡ ok after → BusStep bus after
  unregister_step : (id : ℕ) (bus : EventBus E) → BusStep bus (unregister id bus)
  publish_step :
      (closed : ℕ → Bool) (current : Option ℕ) (event : E) (bus : EventBus E)
      → BusStep bus (publish closed current event bus)
  callback_step : (bus : EventBus E) → BusStep bus (run_callback bus)
  drain_step : (id : ℕ) (bus : EventBus E) → BusStep bus (drain id bus)

pub data BusRun {E : Type 0} (start : EventBus E) : EventBus E → Type 0 where
  started : BusRun start start
  later_on : {bus after : EventBus E} → BusRun start bus → BusStep bus after → BusRun start after

module _ {E : Type 0} where
  scheduled-BusValid :
      (queued : List (ℕ × E)) (bus : EventBus E)
      → BusValid bus
      → BusValid (record bus { scheduled = queued })
  scheduled-BusValid queued bus valid = record { few = valid.few; bounded = valid.bounded }

  later-BusValid :
      (closed : Bool) (queued : List (ℕ × E)) (bus : EventBus E)
      → BusValid bus
      → BusValid (if closed then bus else record bus { scheduled = queued })
  later-BusValid true queued bus valid = valid
  later-BusValid false queued bus valid = scheduled-BusValid queued bus valid

  register_ok :
      (id loop : ℕ) (bus after : EventBus E)
      → register id loop bus ≡ ok after
      → (length bus.subscribers < max_subscribers)
        × (after.subscribers
            ≡ bus.subscribers ++ (record { id = id; loop = loop; queue = [] }) ∷ [])
  unfolding register
  register_ok id loop bus after h = (ground (arith, h), ground (arith, h))

  run_callback-BusValid :
      (subscribers : List (Subscriber E)) (scheduled : List (ℕ × E))
      → BusValid (record { subscribers = subscribers; scheduled = scheduled })
      → BusValid (run_callback (record { subscribers = subscribers; scheduled = scheduled }))
  unfolding run_callback
  run_callback-BusValid subscribers [] valid = valid
  run_callback-BusValid subscribers ((id, event) ∷ later) valid =
      deliver_to-BusValid id event (record { subscribers = subscribers; scheduled = [] }) later
        (record { few = valid.few; bounded = valid.bounded })

  publish_to-BusValid :
      (closed : ℕ → Bool) (current : Option ℕ) (event : E) (target : Subscriber E)
      (bus : EventBus E)
      → BusValid bus
      → BusValid (publish_to closed current event target bus)
  unfolding publish_to
  publish_to-BusValid closed none event target bus valid =
      later-BusValid (closed target.loop) _ bus valid
  publish_to-BusValid closed (some loop) event target bus valid =
      elim (Bool-cases (target.loop == loop)) [
        | inl own ↦ rw own (deliver_to-BusValid target.id event bus bus.scheduled valid)
        | inr other ↦ rw other (later-BusValid (closed target.loop) _ bus valid)
      ]

  publish_all-BusValid :
      (closed : ℕ → Bool) (current : Option ℕ) (event : E) (targets : List (Subscriber E))
      (bus : EventBus E)
      → BusValid bus
      → BusValid (publish_all closed current event targets bus)
  unfolding publish_all
  publish_all-BusValid closed current event [] bus valid = valid
  publish_all-BusValid closed current event (t ∷ targets) bus valid =
      publish_all-BusValid closed current event targets _
        (publish_to-BusValid closed current event t bus valid)

  BusStep-BusValid : {bus after : EventBus E} → BusStep bus after → BusValid bus → BusValid after
  unfolding unregister publish run_callback drain
  BusStep-BusValid (register_step {bus} {after} id loop h) valid =
      let (room, made) = register_ok id loop bus after h in
      record {
        few = rw made (
            omega (
              arith,
              room,
              length-append bus.subscribers (record { id = id; loop = loop; queue = [] } ∷ []),
            ));
        bounded = rw made (All-append _ bus.subscribers _ valid.bounded (omega arith, tt));
      }
  BusStep-BusValid (unregister_step id bus) valid = record {
    few = omega (arith, valid.few, length-delete_where (subscriber_by_id id) bus.subscribers);
    bounded = All-delete_where _ (subscriber_by_id id) bus.subscribers valid.bounded;
  }
  BusStep-BusValid (publish_step closed current event bus) valid =
      publish_all-BusValid closed current event bus.subscribers bus valid
  BusStep-BusValid (callback_step bus) valid =
      run_callback-BusValid bus.subscribers bus.scheduled valid
  BusStep-BusValid (drain_step id bus) valid = record {
    few =
        rw
          (length-update_where (subscriber_by_id id) (λ s. record s { queue = drop 1 s.queue })
            bus.subscribers)
          valid.few;
    bounded =
        All-update_where _ (subscriber_by_id id) (λ s. record s { queue = drop 1 s.queue })
          (λ s h hit. omega (arith, h, length-drop 1 s.queue)) bus.subscribers valid.bounded;
  }

  -- Whatever connections, threads and loops do, and in whatever order, there are never more than 32
  -- subscribers, and no queue ever holds more than 128 events.
  pub BusRun-BusValid :
      (start : EventBus E) {bus : EventBus E} → BusValid start → BusRun start bus → BusValid bus
  BusRun-BusValid start valid started = valid
  BusRun-BusValid start valid (later_on run step) =
      BusStep-BusValid step (BusRun-BusValid start valid run)
