-- ===== src/Store/Deliveries/Runs.antt =====
-- Deliveries and cursors over sequences of the operations on subscriptions of
-- crates/maxops-store/src/lib.rs.
use maxops.Prelude.{
  ℕ, ◌≤◌, String, ◌≡◌, refl, some, List, [], ◌∷◌, inl, inr, arith, find?, find?-upsert_there,
  upsert,
}
use maxops.Store.Canonical.{canonical_json}
use maxops.Store.Clock.{Clock}
use maxops.Store.Db.{Db, SubscriptionRow}
use maxops.Store.Deliveries.{
  is_subscription, find_subscription, find_delivery, set_subscription, new_subscription, advance,
  skip,
}
use maxops.Store.Deliveries.Finality.{
  DeliveryOperation, apply_delivery, run_deliveries, IsDelivered, HasReached, IsDelivered-attempted,
  IsDelivered-settled, reached_update, apply_delivery-keeps,
}

apply_delivery-IsDelivered :
    (clock : Clock) (id : String) (sequence : ℕ) (op : DeliveryOperation) (db : Db)
    → IsDelivered id sequence db
    → IsDelivered id sequence (apply_delivery clock op db)
unfolding find_delivery
apply_delivery-IsDelivered clock id sequence op db d =
    apply_delivery-keeps (IsDelivered id sequence) clock op db
      (λ at' id' filter target credential_ref. record {
        delivery = d.delivery;
        found = d.found;
        final = d.final;
      })
      (λ at' retry_at id' n. IsDelivered-attempted id sequence at' retry_at id' n db d)
      (λ at' id' n stage status f. IsDelivered-settled id sequence at' id' n stage status db f d)
      (λ id' n. record { delivery = d.delivery; found = d.found; final = d.final }) d

reached_upsert :
    (id : String) (c : ℕ) (id' : String) (f : SubscriptionRow → SubscriptionRow)
    (y : SubscriptionRow) (db : Db)
    → ((r : SubscriptionRow) → is_subscription id (f r) ≡ is_subscription id r)
    → ((r : SubscriptionRow) → r.cursor ≤ (f r).cursor)
    → HasReached id c db
    → (row : SubscriptionRow) × (find?
          (is_subscription id)
          (upsert (is_subscription id') f y db.subscriptions)
        ≡ some row)
      × (c ≤ row.cursor)
unfolding find_subscription
reached_upsert id c id' f y db k up h =
    elim (find?-upsert_there (is_subscription id') (is_subscription id) f y db.subscriptions k
      h.found) [
        | inl e ↦ (h.subscription, e, h.reached)
        | inr (t, e) ↦ (f h.subscription, e, omega (arith, h.reached, up h.subscription))
      ]

apply_delivery-HasReached :
    (clock : Clock) (id : String) (c : ℕ) (op : DeliveryOperation) (db : Db)
    → HasReached id c db
    → HasReached id c (apply_delivery clock op db)
unfolding find_subscription
apply_delivery-HasReached clock id c op db h =
    apply_delivery-keeps (HasReached id c) clock op db
      (λ at' id' filter target credential_ref.
        let (row, e, le) =
          reached_upsert id c id'
            (set_subscription (canonical_json filter) (canonical_json target) credential_ref)
            (new_subscription at' id' (canonical_json filter) (canonical_json target)
              credential_ref)
            db (λ r. refl) (λ r. omega arith) h in
        record { subscription = row; found = e; reached = le })
      (λ at' retry_at id' n. record {
        subscription = h.subscription;
        found = h.found;
        reached = h.reached;
      })
      (λ at' id' n stage status f.
        let (row, e, le) =
          reached_update id c (is_subscription id') (advance at' n) db (λ r. refl)
            (λ r. omega arith) h in
        record { subscription = row; found = e; reached = le })
      (λ id' n.
        let (row, e, le) =
          reached_update id c (is_subscription id') (skip n) db (λ r. refl) (λ r. omega arith) h in
        record { subscription = row; found = e; reached = le })
      h

pub run_deliveries-IsDelivered :
    (clock : Clock) (id : String) (sequence : ℕ) (ops : List DeliveryOperation) (db : Db)
    → IsDelivered id sequence db
    → IsDelivered id sequence (run_deliveries clock ops db)
run_deliveries-IsDelivered clock id sequence [] db d = d
run_deliveries-IsDelivered clock id sequence (op ∷ ops) db d =
    run_deliveries-IsDelivered clock id sequence ops (apply_delivery clock op db)
      (apply_delivery-IsDelivered clock id sequence op db d)

pub run_deliveries-HasReached :
    (clock : Clock) (id : String) (c : ℕ) (ops : List DeliveryOperation) (db : Db)
    → HasReached id c db
    → HasReached id c (run_deliveries clock ops db)
run_deliveries-HasReached clock id c [] db h = h
run_deliveries-HasReached clock id c (op ∷ ops) db h =
    run_deliveries-HasReached clock id c ops (apply_delivery clock op db)
      (apply_delivery-HasReached clock id c op db h)
