-- ===== src/Tests/EventBusRuns.antt =====
-- The event bus.
use wdc_catalog_api.Base.{ℕ, ◌≡◌, refl, false, none, List, [], ◌∷◌, take, arith}
use wdc_catalog_api.EventBus.{EventBus, register, publish}
use wdc_catalog_api.EventBus.Bounds.{
  deliver_history, reversed, deliver_history_lem, BusValid, register_step, publish_step, started,
  later_on, BusRun-BusValid,
}

abbrev events : List ℕ
events = 5 ∷ 4 ∷ 3 ∷ 2 ∷ 1 ∷ []

deliver_history_lem_example : deliver_history 3 events ≡ reversed (take 3 events)
deliver_history_lem_example = deliver_history_lem 2 events

abbrev empty_bus : EventBus ℕ
empty_bus = record { subscribers = []; scheduled = [] }

abbrev one_subscriber : EventBus ℕ
one_subscriber = record {
  subscribers = (record { id = 1; loop = 9; queue = [] }) ∷ [];
  scheduled = [];
}

BusRun-BusValid_example : BusValid (publish (λ loop. false) none 7 one_subscriber)
unfolding register
BusRun-BusValid_example =
    BusRun-BusValid empty_bus (record { few = omega arith; bounded = tt })
      (later_on (later_on started (register_step 1 9 refl))
        (publish_step (λ loop. false) none 7 one_subscriber))
