-- ===== src/Store/Observations.antt =====
-- Observations of resources: `record_observation` and `latest_observation` of
-- crates/maxops-store/src/lib.rs.
use maxops.Prelude.{
  ℕ, ◌+◌, String, Bool, Bool-cases, true, false, not, ◌&&◌, Option, none, some, List, [], ◌∷◌, ◌++◌,
  ◌≡◌, refl, ap, ◌∙◌, ok, ◌>>◌, ensure, str_eq, if◌then◌else◌, inl, inr,
}
use maxops.Proto.Names.{is_empty}
use maxops.Proto.Observations
use maxops.Proto.Observations.{ResourceKind, ResourceObservation}
use maxops.Store.Canonical.{canonical_json}
use maxops.Store.Db.{Db}
use maxops.Store.Errors.{Outcome, empty_observation_key, constraint, transact}
use maxops.Store.Events.{refers_to_change}

-- The row that is written: the value in canonical form.
abbrev observed : ResourceObservation → ResourceObservation
observed o = record o { value = canonical_json o.value }

abbrev with_observation : ResourceObservation → Db → Db
with_observation o db = record db {
  observations = db.observations ++ observed o ∷ [];
  observation_sequence = db.observation_sequence + 1;
}

-- The schema refuses a reference to no change.
unfoldable record_observation : ResourceObservation → Db → Db × Outcome ℕ
record_observation o db =
    transact db
      (do
        ensure (not (is_empty o.resource_key)) empty_observation_key
        ensure (refers_to_change db o.related_change_id) constraint
        ok (with_observation o db, db.observation_sequence + 1))
      (λ db' sequence. ok sequence)

-- `WHERE resource_kind = ? AND resource_key = ?`
abbrev is_of : ResourceKind → String → ResourceObservation → Bool
is_of kind key o =
    str_eq (Observations.as_str o.resource_kind) (Observations.as_str kind)
    && str_eq o.resource_key key

-- `ORDER BY sequence DESC LIMIT 1`
unfoldable last_where :
    (ResourceObservation → Bool) → List ResourceObservation → Option ResourceObservation
last_where p [] = none
last_where p (x ∷ xs) = elim (last_where p xs) [
  | none ↦ if p x then some x else none
  | some y ↦ some y
]

unfoldable latest_observation : Db → ResourceKind → String → Option ResourceObservation
latest_observation db kind key = last_where (is_of kind key) db.observations

last_where-append :
    (p : ResourceObservation → Bool) (xs : List ResourceObservation) (y : ResourceObservation)
    → last_where p (xs ++ y ∷ []) ≡ (if p y then some y else last_where p xs)
unfolding last_where
last_where-append p [] y = refl
last_where-append p (x ∷ xs) y = elim (Bool-cases (p y)) [
  | inl t ↦ rw (last_where-append p xs y, t) refl
  | inr f ↦ rw (last_where-append p xs y, f) refl
]

-- What a successful transaction of two tests leaves.
committed :
    (a b : Bool) (db db' : Db) (m n : ℕ)
    → (transact {A = ℕ} db
        (do ensure a empty_observation_key; ensure b constraint; ok (db', m))
        (λ d s. ok s)).1
      ≡ ok n
    → (transact {A = ℕ} db
        (do ensure a empty_observation_key; ensure b constraint; ok (db', m))
        (λ d s. ok s)).0
      ≡ db'
unfolding transact
committed true true db db' m n h = refl
committed true false db db' m n h = cc
committed false b db db' m n h = cc

-- An observation that has been recorded is the latest of its resource, with its value in canonical
-- form, and the latest of every other resource stays.
latest_observation-record_observation :
    (o : ResourceObservation) (db : Db) (n : ℕ) (kind : ResourceKind) (key : String)
    → (record_observation o db).1 ≡ ok n
    → latest_observation (record_observation o db).0 kind key
      ≡ (if is_of kind key o then some (observed o) else latest_observation db kind key)
unfolding record_observation latest_observation transact
latest_observation-record_observation o db n kind key h =
    ap (λ d. latest_observation d kind key)
      (committed (not (is_empty o.resource_key)) (refers_to_change db o.related_change_id) db
        (with_observation o db) (db.observation_sequence + 1) n h)
    ∙ last_where-append (is_of kind key) db.observations (observed o)
