-- ===== src/Store/Errors.antt =====
-- The errors of crates/maxops-store/src/lib.rs, one for each message of `ensure!` and `eyre!`, and
-- `constraint` for a statement that the schema of crates/maxops-store/migrations refuses.
use maxops.Prelude.{◌%◌, ◌^◌, ℕ, ◌+◌, ◌⊎◌, inl, inr, ◌≡◌, refl, Result, ok, err, leb, if◌then◌else◌}
use maxops.Store.Db.{Db}

pub data StoreError : Type 0 where
  constraint sqlite_integer_range : StoreError
  invalid_idempotency_key invalid_principal invalid_host invalid_operation : StoreError
  invalid_spec_version invalid_policy_version spec_not_object : StoreError
  idempotency_conflict job_id_conflict job_not_found job_revision_changed : StoreError
  invalid_job_transition job_revision_overflow terminal_job invalid_cancel_reason : StoreError
  change_not_found change_revision_changed change_revision_overflow : StoreError
  invalid_change_creator invalid_change_transition : StoreError
  workflow_ownership_changed workflow_not_running change_owned_by_workflow : StoreError
  empty_resource invalid_list_limit invalid_change_limit : StoreError
  invalid_event_limit : StoreError
  invalid_repository_id invalid_workspace_executor invalid_base_commit : StoreError
  invalid_tree_hash invalid_commit_hash invalid_workspace_creator workspace_conflict : StoreError
  workspace_identity_changed workspace_not_found workspace_revision_changed : StoreError
  workspace_revision_overflow : StoreError
  invalid_event_source invalid_event_fingerprint invalid_event_host event_not_found : StoreError
  invalid_event_query empty_host_scope host_not_permitted event_cursor_expired : StoreError
  invalid_subscription_id subscription_not_found delivery_not_final delivery_not_found : StoreError
  invalid_remediation_attempt delivery_deadline_overflow invalid_delivery_attempts : StoreError
  no_remediation_attempts active_for_episode active_for_host : StoreError
  attempts_exhausted cooldown_active : StoreError
  outcome_not_terminal invalid_summary remediation_not_found : StoreError
  remediation_revision_changed remediation_terminal : StoreError
  empty_observation_key : StoreError

abbrev pub Outcome {ℓ} : Type ℓ → Type ℓ
Outcome A = Result StoreError A

-- `i64::MAX` and `u64::MAX`
abbrev pub i64_max : ℕ
i64_max = 9223372036854775807

abbrev pub u64_max : ℕ
u64_max = 18446744073709551615

abbrev pub u16_max : ℕ
u16_max = 65535

abbrev pub u32_max : ℕ
u32_max = 4294967295

-- `to_i64`
unfoldable pub to_i64 : ℕ → Outcome ℕ
to_i64 value = if leb value i64_max then ok value else err sqlite_integer_range

-- `revision + 1` on an `i64`, which a release build wraps around; the number is its 64 bits.
unfoldable pub wrapping_next : ℕ → ℕ
wrapping_next revision = (revision + 1) % 2 ^ 64

-- `revision.checked_add(1)`
unfoldable pub next_revision : StoreError → ℕ → Outcome ℕ
next_revision overflow revision =
    if leb (revision + 1) u64_max then ok (revision + 1) else err overflow

-- A transaction: an early return rolls it back; after the commit the result is read.
unfoldable pub transact {ℓ κ} :
    {A : Type ℓ} {B : Type κ} → Db → Outcome (Db × B) → (Db → B → Outcome A) → Db × Outcome A
transact db (err e) reply = (db, err e)
transact db (ok (db', b)) reply = (db', reply db' b)

-- What holds before a transaction and after each commit holds after the transaction.
pub transact_inv {ℓ κ μ} :
    {A : Type ℓ} {B : Type κ} (P : Db → Type μ) (db : Db) (r : Outcome (Db × B))
    (reply : Db → B → Outcome A)
    → P db
    → ((db' : Db) (b : B) → r ≡ ok (db', b) → P db')
    → P (transact db r reply).0
unfolding transact
transact_inv P db (err e) reply h k = h
transact_inv P db (ok (db', b)) reply h k = k db' b refl

-- A transaction whose reply cannot fail after a commit changes nothing when it fails.
pub transact_error {ℓ κ} :
    {A : Type ℓ} {B : Type κ} (db : Db) (r : Outcome (Db × B)) (reply : Db → B → Outcome A)
    → ((db' : Db) (b : B) → r ≡ ok (db', b) → (db' ≡ db) ⊎ ((a : A) × (reply db' b ≡ ok a)))
    → {e : StoreError} → (transact db r reply).1 ≡ err e
    → (transact db r reply).0 ≡ db
unfolding transact
transact_error db (err x) reply k h = refl
transact_error db (ok (db', b)) reply k h = elim (k db' b refl) [
  | inl same ↦ same
  | inr (a, q) ↦ cc (h, q)
]

-- A transaction that replies has committed, and replies from the tables that it committed.
pub transact_ok {ℓ κ} :
    {A : Type ℓ} {B : Type κ} (db : Db) (r : Outcome (Db × B)) (reply : Db → B → Outcome A) {a : A}
    → (transact db r reply).1 ≡ ok a
    → (db' : Db) × (b : B) × (r ≡ ok (db', b))
      × (reply db' b ≡ ok a)
      × ((transact db r reply).0 ≡ db')
unfolding transact
transact_ok db (err x) reply h = cc
transact_ok db (ok (db', b)) reply h = (db', b, refl, h, refl)
