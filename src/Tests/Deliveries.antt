-- ===== src/Tests/Deliveries.antt =====
-- Examples for the store's deliveries.
use maxops.Prelude.{
  ℕ, ◌+◌, ◌≤◌, ◌<◌, ◌≡◌, refl, none, some, List, [], ◌∷◌, ok, str_eq, ltb, find?, count_where,
}
use maxops.Proto.Json.{object, end}
use maxops.Proto.DeliveryStage
use maxops.Proto.Events.{EventRecord}
use maxops.Store.Clock.{Clock}
use maxops.Store.Db.{Db, SubscriptionRow}
use maxops.Store.Errors.{transact, to_i64}
use maxops.Store.History.{no_rows}
use maxops.Store.Deliveries.{
  find_subscription, next_event, begin_delivery, acknowledge_delivery, new_subscription,
  first_attempt,
}
use maxops.Store.Deliveries.Finality.{DeliveryOperation, run_deliveries}
use maxops.Store.Deliveries.Guarantees.{acknowledge_delivery-final}

abbrev pub a_clock : Clock
a_clock = record {
  checked_add = λ t n. some (t + n);
  as_second = λ t. t;
  text_before = λ a b. ltb a b;
}

abbrev a_subscription : SubscriptionRow
a_subscription = new_subscription 1 "s1" (object end) (object end) none

abbrev in_flight : Db
in_flight = record no_rows {
  subscriptions = a_subscription ∷ [];
  deliveries = first_attempt 2 32 "s1" 7 ∷ [];
}

subscribed : find_subscription in_flight "s1" ≡ some a_subscription
unfolding find_subscription find? str_eq
subscribed = refl

accepted_reply :
    (acknowledge_delivery 3 "s1" 7 DeliveryStage.accepted (some 202) in_flight).1 ≡ ok tt
unfolding acknowledge_delivery transact to_i64 count_where str_eq DeliveryStage.eq
accepted_reply = refl

abbrev later_calls : List DeliveryOperation
later_calls =
    DeliveryOperation.begin 50 "s1" 7 30
    ∷ DeliveryOperation.skip_event "s1" 3
    ∷ DeliveryOperation.acknowledge 60 "s1" 7 DeliveryStage.confirmed none
    ∷ []

abbrev later : Db
later =
    run_deliveries a_clock later_calls
      (acknowledge_delivery 3 "s1" 7 DeliveryStage.accepted (some 202) in_flight).0

acknowledge_delivery-final_example :
    ((at' : ℕ) (seconds : ℕ) → begin_delivery a_clock at' "s1" 7 seconds later ≡ (later, ok none))
    × (subscription : SubscriptionRow) × (find_subscription later "s1" ≡ some subscription)
    × (7 ≤ subscription.cursor)
    × ((event : EventRecord)
        → next_event later subscription.cursor ≡ ok (some event)
        → 7 < event.sequence)
acknowledge_delivery-final_example =
    acknowledge_delivery-final 3 "s1" 7 DeliveryStage.accepted (some 202) in_flight a_clock
      later_calls subscribed accepted_reply
