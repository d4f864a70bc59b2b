-- ===== src/Store/Deliveries/Finality.antt =====
-- The operations on subscriptions of crates/maxops-store/src/lib.rs in one sequence, and what each
-- can commit.
use maxops.Prelude.{
  ℕ, ◌≤◌, String, ◌≡◌, ◌⊎◌, refl, sym, subst, Bool, Bool-cases, false, Option, Option-cases, some,
  List, [], ◌∷◌, ok, inl, inr, arith, find?, find?-update_where, find?-upsert_there, update_where,
}
use maxops.Proto.Json.{Value}
use maxops.Proto.Jobs.{Timestamp}
use maxops.Proto.DeliveryStage
use maxops.Proto.DeliveryStage.{DeliveryStage}
use maxops.Store.Clock.{Clock}
use maxops.Store.Db.{Db, SubscriptionRow, DeliveryRow}
use maxops.Store.Errors.{to_i64, transact_inv}
use maxops.Store.Deliveries.{
  is_subscription, find_subscription, is_delivery, find_delivery, ensure_subscription,
  attempt_again, first_attempt, is_due, attempted, attempt, begin_tx, begin_delivery, settle,
  acknowledged, acknowledge_delivery, skipped, subscribed, skip_subscription_event,
}

-- A call of one of the operations with its arguments.
pub data DeliveryOperation : Type 0 where
  subscribe : Timestamp → String → Value → Value → Option String → DeliveryOperation
  begin : Timestamp → String → ℕ → ℕ → DeliveryOperation
  acknowledge : Timestamp → String → ℕ → DeliveryStage → Option ℕ → DeliveryOperation
  skip_event : String → ℕ → DeliveryOperation

abbrev pub apply_delivery : Clock → DeliveryOperation → Db → Db
apply_delivery clock (DeliveryOperation.subscribe at id filter target credential_ref) db =
    (ensure_subscription at id filter target credential_ref db).0
apply_delivery clock (DeliveryOperation.begin at id sequence seconds) db =
    (begin_delivery clock at id sequence seconds db).0
apply_delivery clock (DeliveryOperation.acknowledge at id sequence stage status) db =
    (acknowledge_delivery at id sequence stage status db).0
apply_delivery clock (DeliveryOperation.skip_event id sequence) db =
    (skip_subscription_event id sequence db).0

abbrev pub run_deliveries : Clock → List DeliveryOperation → Db → Db
run_deliveries clock [] db = db
run_deliveries clock (op ∷ ops) db = run_deliveries clock ops (apply_delivery clock op db)

-- The delivery has left the queue.
pub record IsDelivered (id : String) (sequence : ℕ) (db : Db) : Type 0 where
  pub delivery : DeliveryRow
  pub found : find_delivery db id sequence ≡ some delivery
  pub final : DeliveryStage.eq delivery.stage DeliveryStage.queued ≡ false

-- The cursor of the subscription is at least `n`.
pub record HasReached (id : String) (n : ℕ) (db : Db) : Type 0 where
  pub subscription : SubscriptionRow
  pub found : find_subscription db id ≡ some subscription
  pub reached : n ≤ subscription.cursor

module _ (id : String) (sequence : ℕ) where
  pub IsDelivered-attempted :
      (at retry_at : Timestamp) (id' : String) (n : ℕ) (db : Db)
      → IsDelivered id sequence db
      → IsDelivered id sequence (attempted at retry_at id' n db)
  unfolding find_delivery
  IsDelivered-attempted at retry_at id' n db d =
      elim (find?-upsert_there (is_delivery id' n) (is_delivery id sequence)
        (attempt_again at retry_at) (first_attempt at retry_at id' n) db.deliveries (λ x. refl)
        d.found) [
          | inl e ↦ record { delivery = d.delivery; found = e; final = d.final }
          | inr (t, e) ↦ record {
            delivery = attempt_again at retry_at d.delivery;
            found = e;
            final = d.final;
          }
        ]

  pub IsDelivered-settled :
      (at : Timestamp) (id' : String) (n : ℕ) (stage : DeliveryStage) (status : Option ℕ) (db : Db)
      → DeliveryStage.eq stage DeliveryStage.queued ≡ false
      → IsDelivered id sequence db
      → IsDelivered id sequence (acknowledged at id' n stage status db)
  unfolding find_delivery
  IsDelivered-settled at id' n stage status db f d =
      let e =
        find?-update_where (is_delivery id' n) (is_delivery id sequence) (settle at stage status)
          db.deliveries (λ x. refl) in
      elim (Bool-cases (is_delivery id' n d.delivery)) [
        | inl t ↦ record {
          delivery = settle at stage status d.delivery;
          found = rw e (rw d.found (rw t));
          final = f;
        }
        | inr t ↦ record {
          delivery = d.delivery;
          found = rw e (rw d.found (rw t));
          final = d.final;
        }
      ]

-- An update that lets no cursor go back.
pub reached_update :
    (id : String) (c : ℕ) (p : SubscriptionRow → Bool) (f : SubscriptionRow → SubscriptionRow)
    (db : Db)
    → ((r : SubscriptionRow) → is_subscription id (f r) ≡ is_subscription id r)
    → ((r : SubscriptionRow) → r.cursor ≤ (f r).cursor)
    → HasReached id c db
    → (row : SubscriptionRow) × (find? (is_subscription id) (update_where p f db.subscriptions)
        ≡ some row)
      × (c ≤ row.cursor)
unfolding find_subscription
reached_update id c p f db k up h =
    let e = find?-update_where p (is_subscription id) f db.subscriptions k in
    elim (Bool-cases (p h.subscription)) [
      | inl t ↦
          (f h.subscription, rw e (rw h.found (rw t)), omega (arith, h.reached, up h.subscription))
      | inr t ↦ (h.subscription, rw e (rw h.found (rw t)), h.reached)
    ]

begin_tx-ok :
    (clock : Clock) (at : Timestamp) (id : String) (sequence seconds : ℕ) (db : Db) {db' : Db}
    {r : Option ℕ}
    → begin_tx clock at id sequence seconds db ≡ ok (db', r)
    → (db' ≡ db) ⊎ ((retry_at : Timestamp) × (db' ≡ attempted at retry_at id sequence db))
unfolding begin_tx attempt to_i64
begin_tx-ok clock at id sequence seconds db h =
    elim (Bool-cases (is_due at (find_delivery db id sequence))) [
      | inr n ↦ inl (ground (arith, h, n))
      | inl y ↦ elim (Option-cases (clock.checked_add at seconds)) [
        | inl n ↦ absurd (ground (arith, h, n, y))
        | inr (retry_at, e) ↦ inr (retry_at, ground (arith, h, e, y))
      ]
    ]

module _ (P : Db → Type 0) (clock : Clock) where
  -- To show that an operation keeps a property, the tables that it can commit are enough.
  pub apply_delivery-keeps :
      (op : DeliveryOperation) (db : Db)
      → ((at : Timestamp) (id : String) (filter target : Value) (credential_ref : Option String)
          → P (subscribed at id filter target credential_ref db))
      → ((at retry_at : Timestamp) (id : String) (sequence : ℕ)
          → P (attempted at retry_at id sequence db))
      → ((at : Timestamp) (id : String) (sequence : ℕ) (stage : DeliveryStage) (status : Option ℕ)
          → DeliveryStage.eq stage DeliveryStage.queued ≡ false
          → P (acknowledged at id sequence stage status db))
      → ((id : String) (sequence : ℕ) → P (skipped id sequence db))
      → P db
      → P (apply_delivery clock op db)
  unfolding ensure_subscription begin_delivery acknowledge_delivery skip_subscription_event to_i64
  apply_delivery-keeps (DeliveryOperation.subscribe at id filter target credential_ref) db hs hb ha
        hk h =
      transact_inv P db _ _ h
        λ db' u q. subst P (ground (arith, q)) (hs at id filter target credential_ref)
  apply_delivery-keeps (DeliveryOperation.begin at id sequence seconds) db hs hb ha hk h =
      transact_inv P db _ _ h λ db' u q. elim (begin_tx-ok clock at id sequence seconds db q) [
        | inl e ↦ subst P (sym e) h
        | inr (retry_at, e) ↦ subst P (sym e) (hb at retry_at id sequence)
      ]
  apply_delivery-keeps (DeliveryOperation.acknowledge at id sequence stage status) db hs hb ha hk
        h =
      transact_inv P db _ _ h
        λ db' u q. subst P (ground (arith, q)) (ha at id sequence stage status (ground (arith, q)))
  apply_delivery-keeps (DeliveryOperation.skip_event id sequence) db hs hb ha hk h =
      transact_inv P db _ _ h λ db' u q. subst P (ground (arith, q)) (hk id sequence)
