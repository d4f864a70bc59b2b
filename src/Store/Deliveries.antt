-- ===== src/Store/Deliveries.antt =====
-- Subscriptions and deliveries of crates/maxops-store/src/lib.rs: `ensure_subscription`,
-- `subscription_cursor`, `next_event`, `begin_delivery`, `delivery_record`,
-- `acknowledge_delivery` and `skip_subscription_event`.
pub mod Finality
pub mod Runs
pub mod Guarantees
use maxops.Prelude.{
  ℕ, ◌+◌, max, String, Bool, true, false, not, ◌&&◌, Option, none, some, [], ◌∷◌, ◌++◌, ok, err,
  ◌>>=◌, ◌>>◌, ensure, ok_or, leb, ltb, ◌==◌, str_eq, if◌then◌else◌, find?, update_where, upsert,
  count_where, is_some,
}
use maxops.Proto.Json.{Value}
use maxops.Proto.Jobs.{Timestamp}
use maxops.Proto.DeliveryStage
use maxops.Proto.DeliveryStage.{DeliveryStage}
use maxops.Proto.Events.{EventRecord}
use maxops.Proto.Names.{bounded}
use maxops.Store.Canonical.{canonical_json}
use maxops.Store.Clock.{Clock}
use maxops.Store.Db.{Db, SubscriptionRow, DeliveryRow}
use maxops.Store.Errors.{
  Outcome, constraint, invalid_subscription_id, subscription_not_found, delivery_not_final,
  delivery_not_found, delivery_deadline_overflow, invalid_delivery_attempts, to_i64, u32_max,
  transact,
}

pub record SubscriptionCursor : Type 0 where
  pub id : String
  pub cursor : ℕ

pub record DeliveryRecord : Type 0 where
  pub stage : DeliveryStage
  pub attempts : ℕ

-- `WHERE id = ?`
abbrev pub is_subscription : String → SubscriptionRow → Bool
is_subscription id r = str_eq r.id id

unfoldable pub find_subscription : Db → String → Option SubscriptionRow
find_subscription db id = find? (is_subscription id) db.subscriptions

-- `WHERE subscription_id = ? AND event_sequence = ?`
abbrev pub is_delivery : String → ℕ → DeliveryRow → Bool
is_delivery id sequence r = str_eq r.subscription_id id && r.event_sequence == sequence

unfoldable pub find_delivery : Db → String → ℕ → Option DeliveryRow
find_delivery db id sequence = find? (is_delivery id sequence) db.deliveries

unfoldable pub subscription_cursor : Db → String → Outcome SubscriptionCursor
subscription_cursor db id = do
  row ← ok_or (find_subscription db id) subscription_not_found
  ok (record { id = row.id; cursor = row.cursor })

abbrev pub set_subscription : Value → Value → Option String → SubscriptionRow → SubscriptionRow
set_subscription filter target credential_ref r = record r {
  filter = filter;
  target = target;
  credential_ref = credential_ref;
}

abbrev pub new_subscription : Timestamp → String → Value → Value → Option String → SubscriptionRow
new_subscription at id filter target credential_ref = record {
  id = id;
  filter = filter;
  target = target;
  credential_ref = credential_ref;
  cursor = 0;
  acknowledged_at = none;
  created_at = at;
}

abbrev pub subscribed : Timestamp → String → Value → Value → Option String → Db → Db
subscribed at id filter target credential_ref db = record db {
  subscriptions =
      upsert (is_subscription id)
        (set_subscription (canonical_json filter) (canonical_json target) credential_ref)
        (new_subscription at id (canonical_json filter) (canonical_json target) credential_ref)
        db.subscriptions;
}

unfoldable pub ensure_subscription :
    Timestamp → String → Value → Value → Option String → Db → Db × Outcome SubscriptionCursor
ensure_subscription at id filter target credential_ref db =
    transact db
      (do
        ensure (bounded 128 id) invalid_subscription_id
        ok (subscribed at id filter target credential_ref db, tt {0}))
      (λ db' u. subscription_cursor db' id)

-- `WHERE sequence > ? ORDER BY sequence LIMIT 1`: rows stand in the order of their numbers.
unfoldable pub next_event : Db → ℕ → Outcome (Option EventRecord)
next_event db after = do n ← to_i64 after; ok (find? (λ e. ltb n e.sequence) db.events)

abbrev pub attempt_again : Timestamp → Timestamp → DeliveryRow → DeliveryRow
attempt_again at retry_at r = record r {
  attempts = r.attempts + 1;
  retry_at = some retry_at;
  updated_at = at;
}

abbrev pub first_attempt : Timestamp → Timestamp → String → ℕ → DeliveryRow
first_attempt at retry_at id sequence = record {
  subscription_id = id;
  event_sequence = sequence;
  stage = DeliveryStage.queued;
  attempts = 1;
  retry_at = some retry_at;
  response_status = none;
  updated_at = at;
}

-- The deadline of the last attempt has not passed.
abbrev pub is_waiting : Timestamp → DeliveryRow → Bool
is_waiting at r = elim r.retry_at [ none ↦ false | some retry_at ↦ ltb at retry_at ]

-- A row to send again, or no row; a row that is final or waits is left alone.
unfoldable pub is_due : Timestamp → Option DeliveryRow → Bool
is_due at none = true
is_due at (some row) = DeliveryStage.eq row.stage DeliveryStage.queued && not (is_waiting at row)

abbrev pub attempted : Timestamp → Timestamp → String → ℕ → Db → Db
attempted at retry_at id sequence db = record db {
  deliveries =
      upsert (is_delivery id sequence) (attempt_again at retry_at)
        (first_attempt at retry_at id sequence) db.deliveries;
}

-- The reply is the number of attempts; the schema refuses a delivery for a subscription or an event
-- that is not there.
unfoldable pub attempt : Clock → Timestamp → String → ℕ → ℕ → Db → Outcome (Db × Option ℕ)
attempt clock at id n retry_after_seconds db = do
  retry_at ← ok_or (clock.checked_add at retry_after_seconds) delivery_deadline_overflow
  ensure (is_some (find_subscription db id) && is_some (find? (λ e. e.sequence == n) db.events))
      constraint
  row ← ok_or (find_delivery (attempted at retry_at id n db) id n) constraint
  ok (attempted at retry_at id n db, some row.attempts)

unfoldable pub begin_tx : Clock → Timestamp → String → ℕ → ℕ → Db → Outcome (Db × Option ℕ)
begin_tx clock at id sequence retry_after_seconds db = do
  n ← to_i64 sequence
  if is_due at (find_delivery db id n)
      then attempt clock at id n retry_after_seconds db
      else ok (db, none)

unfoldable pub begun : Option ℕ → Outcome (Option DeliveryRecord)
begun none = ok none
begun (some n) = do
  ensure (leb n u32_max) invalid_delivery_attempts
  ok (some (record { stage = DeliveryStage.queued; attempts = n }))

unfoldable pub begin_delivery :
    Clock → Timestamp → String → ℕ → ℕ → Db → Db × Outcome (Option DeliveryRecord)
begin_delivery clock at id sequence retry_after_seconds db =
    transact db (begin_tx clock at id sequence retry_after_seconds db) (λ db' n. begun n)

unfoldable pub delivery_record : Db → String → ℕ → Outcome DeliveryRecord
delivery_record db id sequence = do
  n ← to_i64 sequence
  row ← ok_or (find_delivery db id n) delivery_not_found
  ensure (leb row.attempts u32_max) invalid_delivery_attempts
  ok (record { stage = row.stage; attempts = row.attempts })

abbrev pub settle : Timestamp → DeliveryStage → Option ℕ → DeliveryRow → DeliveryRow
settle at stage response_status r = record r {
  stage = stage;
  retry_at = none;
  response_status = response_status;
  updated_at = at;
}

abbrev pub advance : Timestamp → ℕ → SubscriptionRow → SubscriptionRow
advance at sequence r = record r { cursor = max r.cursor sequence; acknowledged_at = some at }

abbrev pub acknowledged : Timestamp → String → ℕ → DeliveryStage → Option ℕ → Db → Db
acknowledged at id sequence stage response_status db = record db {
  deliveries =
      update_where (is_delivery id sequence) (settle at stage response_status) db.deliveries;
  subscriptions = update_where (is_subscription id) (advance at sequence) db.subscriptions;
}

unfoldable pub acknowledge_delivery :
    Timestamp → String → ℕ → DeliveryStage → Option ℕ → Db → Db × Outcome (Unit {0})
acknowledge_delivery at id sequence stage response_status db =
    transact db
      (do
        ensure (not (DeliveryStage.eq stage DeliveryStage.queued)) delivery_not_final
        n ← to_i64 sequence
        ensure (count_where (is_delivery id n) db.deliveries == 1) delivery_not_found
        ok (acknowledged at id n stage response_status db, tt {0}))
      (λ db' u. ok u)

abbrev pub skip : ℕ → SubscriptionRow → SubscriptionRow
skip sequence r = record r { cursor = max r.cursor sequence }

abbrev pub skipped : String → ℕ → Db → Db
skipped id sequence db = record db {
  subscriptions = update_where (is_subscription id) (skip sequence) db.subscriptions;
}

unfoldable pub skip_subscription_event : String → ℕ → Db → Db × Outcome (Unit {0})
skip_subscription_event id sequence db =
    transact db (do n ← to_i64 sequence; ok (skipped id n db, tt {0})) (λ db' u. ok u)
