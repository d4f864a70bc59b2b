-- ===== src/Store/Deliveries/Guarantees.antt =====
-- What follows an acknowledgement: `acknowledge_delivery`, `begin_delivery`,
-- `skip_subscription_event` and `next_event` of crates/maxops-store/src/lib.rs.

use maxops.Prelude.{
  ℕ, ◌<◌, ◌≤◌, String, ◌≡◌, refl, sym, subst, false, Option, Option-cases, none, some, List, ok,
  inl, inr, arith, ltb, find?, find?-holds, find?-update_where, none_counted, count_where,
}
use maxops.Proto.Jobs.{Timestamp}
use maxops.Proto.DeliveryStage
use maxops.Proto.DeliveryStage.{DeliveryStage}
use maxops.Proto.Events.{EventRecord}
use maxops.Store.Clock.{Clock}
use maxops.Store.Db.{Db, SubscriptionRow}
use maxops.Store.Errors.{to_i64, i64_max, transact}
use maxops.Store.Deliveries.{
  is_subscription, find_subscription, is_delivery, find_delivery, next_event, is_due, begin_tx,
  begin_delivery, begun, settle, advance, acknowledged, acknowledge_delivery,
}
use maxops.Store.Deliveries.Finality.{DeliveryOperation, run_deliveries, IsDelivered, HasReached}
use maxops.Store.Deliveries.Runs.{run_deliveries-IsDelivered, run_deliveries-HasReached}

-- What a committed acknowledgement wrote.
module _ (at : Timestamp) (id : String) (sequence : ℕ) (stage : DeliveryStage) (status : Option ℕ)
    (db : Db) where
  committed :
      (acknowledge_delivery at id sequence stage status db).1 ≡ ok tt
      → ((acknowledge_delivery at id sequence stage status db).0
          ≡ acknowledged at id sequence stage status db)
        × (sequence ≤ i64_max)
        × (DeliveryStage.eq stage DeliveryStage.queued ≡ false)
        × (count_where (is_delivery id sequence) db.deliveries ≡ 1)
  unfolding acknowledge_delivery transact to_i64
  committed h = (ground (arith, h), ground (arith, h), ground (arith, h), ground (arith, h))

  committed-IsDelivered :
      DeliveryStage.eq stage DeliveryStage.queued ≡ false
      → count_where (is_delivery id sequence) db.deliveries ≡ 1
      → IsDelivered id sequence (acknowledged at id sequence stage status db)
  unfolding find_delivery
  committed-IsDelivered final one =
      elim (Option-cases (find? (is_delivery id sequence) db.deliveries)) [
        | inl n ↦
            absurd (ground (arith, one, none_counted (is_delivery id sequence) db.deliveries n))
        | inr (row, found) ↦ record {
          delivery = settle at stage status row;
          found =
              rw
                (find?-update_where (is_delivery id sequence) (is_delivery id sequence)
                  (settle at stage status) db.deliveries (λ x. refl))
                (rw found (rw (find?-holds (is_delivery id sequence) db.deliveries found)));
          final = final;
        }
      ]

  committed-HasReached :
      {row : SubscriptionRow}
      → find_subscription db id ≡ some row
      → HasReached id sequence (acknowledged at id sequence stage status db)
  unfolding find_subscription
  committed-HasReached {row} found = record {
    subscription = advance at sequence row;
    found =
        rw
          (find?-update_where (is_subscription id) (is_subscription id) (advance at sequence)
            db.subscriptions (λ x. refl))
          (rw found (rw (find?-holds (is_subscription id) db.subscriptions found)));
    reached = omega arith;
  }

  -- Once a delivery is acknowledged, whatever subscriptions, attempts, acknowledgements and skips
  -- follow, an attempt to begin it again is answered with no delivery and writes nothing, and the
  -- cursor of its subscription stays at or past its number, so that the event that the cursor asks
  -- for next, if any, has a larger one.
  pub acknowledge_delivery-final :
      (clock : Clock) {row : SubscriptionRow} (ops : List DeliveryOperation)
      → find_subscription db id ≡ some row
      → (acknowledge_delivery at id sequence stage status db).1 ≡ ok tt
      → let later =
          run_deliveries clock ops (acknowledge_delivery at id sequence stage status db).0 in
        ((at' : Timestamp) (seconds : ℕ)
          → begin_delivery clock at' id sequence seconds later ≡ (later, ok none))
        × (subscription : SubscriptionRow) × (find_subscription later id ≡ some subscription)
        × (sequence ≤ subscription.cursor)
        × ((event : EventRecord)
            → next_event later subscription.cursor ≡ ok (some event)
            → sequence < event.sequence)
  unfolding begin_delivery begin_tx begun is_due transact to_i64 next_event
  acknowledge_delivery-final clock {row} ops there h =
      let (e, fits, final, one) = committed h in
      let d =
        run_deliveries-IsDelivered clock id sequence ops _
          (subst (IsDelivered id sequence) (sym e) (committed-IsDelivered final one)) in
      let r =
        run_deliveries-HasReached clock id sequence ops _
          (subst (HasReached id sequence) (sym e) (committed-HasReached there)) in
      (
        λ at' seconds. ground (arith, d.found, d.final, fits),
        r.subscription,
        r.found,
        r.reached,
        λ event q. ground (
          arith,
          r.reached,
          q,
          find?-holds (λ v. ltb r.subscription.cursor v.sequence)
              (run_deliveries clock ops
                (acknowledge_delivery at id sequence stage status db).0).events
              {x = event},
        ),
      )
