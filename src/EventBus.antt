-- ===== src/EventBus.antt =====
-- app/event_bus.py: the registry of subscribers with their bounded queues, and publishing from any
-- thread. A queue belongs to an event loop; a delivery from elsewhere is scheduled on that loop and
-- happens in a step of its own. `E` is the type of events.
pub mod Bounds
use wdc_catalog_api.Base.{
  ℕ, suc, ◌+◌, ◌≡◌, Bool, true, false, Option, none, some, List, [], ◌∷◌, ◌++◌, if◌then◌else◌, ltb,
  leb, ◌==◌, length, drop, update_where, delete_where,
}
use wdc_catalog_api.Session.{Result, ok, err, Exn, runtime_error}

abbrev pub max_subscribers : ℕ
max_subscribers = 32

abbrev pub queue_maxsize : ℕ
queue_maxsize = 128

-- One entry of `_queues`: the queue, oldest event first, and its loop. The id stands for the
-- identity of the queue object.
pub record Subscriber (E : Type 0) : Type 0 where
  pub id : ℕ
  pub loop : ℕ
  pub queue : List E

-- The bus, and the callbacks that `call_soon_threadsafe` has taken and no loop has run yet.
pub record EventBus (E : Type 0) : Type 0 where
  pub subscribers : List (Subscriber E)
  pub scheduled : List (ℕ × E)

module _ {E : Type 0} where
  -- `_deliver`, on a queue with room for `size` events: if it is full the oldest goes first
  unfoldable pub deliver : ℕ → E → List E → List E
  deliver size event queue =
      let shorter = drop 1 queue in
      if ltb (length queue) size
      then queue ++ event ∷ []
      else if ltb (length shorter) size
      then shorter ++ event ∷ []
      else shorter

  abbrev pub subscriber_by_id : ℕ → Subscriber E → Bool
  subscriber_by_id id s = s.id == id

  abbrev pub deliver_to : E → Subscriber E → Subscriber E
  deliver_to event s = record s { queue = deliver queue_maxsize event s.queue }

  -- `_register`, for a new queue of a loop
  unfoldable pub register : ℕ → ℕ → EventBus E → Result (EventBus E)
  register id loop bus =
      if leb max_subscribers (length bus.subscribers)
      then err runtime_error
      else ok (record bus {
        subscribers = bus.subscribers ++ (record { id = id; loop = loop; queue = [] }) ∷ [];
      })

  -- `_unregister`
  unfoldable pub unregister : ℕ → EventBus E → EventBus E
  unregister id bus = record bus {
    subscribers = delete_where (subscriber_by_id id) bus.subscribers;
  }

  -- what one target of `publish` does to the bus: a direct delivery on its own loop, a callback from
  -- elsewhere, and nothing if its loop is closed
  unfoldable pub publish_to : (ℕ → Bool) → Option ℕ → E → Subscriber E → EventBus E → EventBus E
  publish_to closed current event target bus =
      let direct = record bus {
        subscribers = update_where (subscriber_by_id target.id) (deliver_to event) bus.subscribers;
      } in
      let later =
        if closed target.loop
        then bus
        else record bus { scheduled = bus.scheduled ++ (target.id, event) ∷ [] } in
      elim current [ none ↦ later | some loop ↦ if target.loop == loop then direct else later ]

  unfoldable pub publish_all :
      (ℕ → Bool) → Option ℕ → E → List (Subscriber E) → EventBus E → EventBus E
  publish_all closed current event [] bus = bus
  publish_all closed current event (target ∷ targets) bus =
      publish_all closed current event targets (publish_to closed current event target bus)

  -- `publish`, from a thread that runs a loop or from one that runs none
  unfoldable pub publish : (ℕ → Bool) → Option ℕ → E → EventBus E → EventBus E
  publish closed current event bus = publish_all closed current event bus.subscribers bus

  -- a loop runs the oldest callback
  unfoldable pub run_callback : EventBus E → EventBus E
  run_callback bus = elim bus.scheduled [
    | [] ↦ bus
    | (id, event) ∷ later ↦ record {
      subscribers = update_where (subscriber_by_id id) (deliver_to event) bus.subscribers;
      scheduled = later;
    }
  ]

  -- `_drain` takes the oldest event of a queue
  unfoldable pub drain : ℕ → EventBus E → EventBus E
  drain id bus = record bus {
    subscribers =
        update_where (subscriber_by_id id) (λ s. record s { queue = drop 1 s.queue })
          bus.subscribers;
  }
