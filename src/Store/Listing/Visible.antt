-- ===== src/Store/Listing/Visible.antt =====
-- The lists that a client sees: `list_visible_jobs`, `list_visible_changes` and `list_changes` of
-- crates/maxops-store/src/lib.rs. Sets are lists; a row is compared by the text of its time and
-- then by the bytes of its identifier.
use maxops.Prelude.{
  ltb, ℕ, ◌+◌, String, Bool, true, false, not, ◌&&◌, ◌||◌, Option, none, some, List, [], ◌∷◌, ok,
  ◌>>=◌, ◌>>◌, ensure, leb, ◌==◌, str_eq, codes, contains, if◌then◌else◌, take, select_where,
}
use maxops.Proto.Ids.{JobId, ChangeId}
use maxops.Proto.Jobs.{Timestamp, JobRecord, JobsListParams}
use maxops.Proto.Changes.{ChangeRecord, ChangeHistoryParams}
use maxops.Store.Clock.{Clock}
use maxops.Store.Db.{Db, ChangeRow}
use maxops.Store.Errors.{
  Outcome, invalid_list_limit, invalid_change_limit, job_not_found, change_not_found,
}
use maxops.Store.Jobs.{get_owned_job}
use maxops.Store.Changes.{get_owned_change}
use maxops.Store.Listing.{is_null_or, has_state}

-- `(created_at, id)`
abbrev pub Position : Type 0
Position = Timestamp × String

-- Texts compare by their bytes, which is the order of their code points.
unfoldable pub codes_before : List ℕ → List ℕ → Bool
codes_before cs [] = false
codes_before [] (d ∷ ds) = true
codes_before (c ∷ cs) (d ∷ ds) = ltb c d || c == d && codes_before cs ds

-- `(created_at, id) < (?, ?)`
unfoldable pub is_below : Clock → Position → Position → Bool
is_below clock (at, id) (at', id') =
    clock.text_before at at'
    || not (clock.text_before at' at) && codes_before (codes id) (codes id')

abbrev pub follows : Clock → Option Position → Position → Bool
follows clock none row = true
follows clock (some cursor) row = is_below clock row cursor

-- `ORDER BY ... DESC`, where `below a b` says that `a` comes before `b` in the ascending order.
unfoldable pub insert_row {ℓ} : {A : Type ℓ} → (A → A → Bool) → A → List A → List A
insert_row below r [] = r ∷ []
insert_row below r (x ∷ xs) =
    let rest = insert_row below r xs in if below r x then x ∷ rest else r ∷ x ∷ xs

unfoldable pub descending {ℓ} : {A : Type ℓ} → (A → A → Bool) → List A → List A
descending below [] = []
descending below (r ∷ rs) = insert_row below r (descending below rs)

-- An empty set of names ends the call with no rows.
abbrev pub unless_empty {ℓ} : {A : Type ℓ} → List String → List A → List A
unless_empty [] rows = []
unless_empty (name ∷ names) rows = rows

abbrev pub job_position : JobRecord → Position
job_position r = (r.created_at, r.job_id)

unfoldable pub job_cursor : Db → String → List String → Option JobId → Outcome (Option Position)
job_cursor db principal hosts none = ok none
job_cursor db principal hosts (some id) = do
  job ← get_owned_job db principal id
  ensure (contains hosts job.host) job_not_found
  ok (some (job.created_at, id))

unfoldable pub is_visible_job :
    Clock → String → List String → JobsListParams → Option Position → JobRecord → Bool
is_visible_job clock principal hosts params cursor r =
    str_eq r.principal principal
    && contains hosts r.host
    && is_null_or params.host r.host
    && has_state params.states r
    && follows clock cursor (job_position r)

unfoldable pub list_visible_jobs :
    Clock → Db → String → List String → JobsListParams → Outcome (List JobRecord)
list_visible_jobs clock db principal hosts params = do
  ensure (leb 1 params.limit && leb params.limit 200) invalid_list_limit
  cursor ← job_cursor db principal hosts params.cursor
  ok (
      unless_empty hosts (
        take (params.limit + 1) (
          descending (λ a b. is_below clock (job_position a) (job_position b))
            (select_where (is_visible_job clock principal hosts params cursor) db.jobs))))

abbrev change_position : ChangeRow → Position
change_position r = (r.created_at, r.id)

unfoldable change_cursor : Db → String → List String → Option ChangeId → Outcome (Option Position)
change_cursor db principal hosts none = ok none
change_cursor db principal hosts (some id) = do
  change ← get_owned_change db principal id
  ensure (contains hosts change.plan.target_host) change_not_found
  ok (some (change.plan.created_at, id))

unfoldable is_visible_change :
    Clock
    → String
    → List String
    → List String
    → ChangeHistoryParams
    → Option Position
    → ChangeRow
    → Bool
is_visible_change clock principal hosts deployments params cursor r =
    str_eq r.creator principal
    && contains hosts r.host
    && contains deployments r.change.plan.deployment_profile
    && is_null_or params.host r.host
    && follows clock cursor (change_position r)

abbrev change_records : List ChangeRow → List ChangeRecord
change_records [] = []
change_records (r ∷ rs) = r.change ∷ change_records rs

unfoldable list_visible_changes :
    Clock
    → Db
    → String
    → List String
    → List String
    → ChangeHistoryParams
    → Outcome (List ChangeRecord)
list_visible_changes clock db principal hosts deployments params = do
  ensure (leb 1 params.limit && leb params.limit 200) invalid_change_limit
  cursor ← change_cursor db principal hosts params.cursor
  ok (
      change_records (
        unless_empty hosts (
          unless_empty deployments (
            take (params.limit + 1) (
              descending (λ a b. is_below clock (change_position a) (change_position b))
                (select_where (is_visible_change clock principal hosts deployments params cursor)
                  db.changes))))))

-- `WHERE creator = ? AND (? IS NULL OR host = ?) ORDER BY created_at DESC LIMIT ?`. Of rows with
-- the same text `ties` says which the database lists later.
unfoldable list_changes :
    Clock
    → (ChangeRow → ChangeRow → Bool)
    → Db
    → String
    → Option String
    → ℕ
    → Outcome (List ChangeRecord)
list_changes clock ties db creator host limit = do
  ensure (leb 1 limit && leb limit 200) invalid_change_limit
  ok (
      change_records (
        take limit (
          descending
            (λ a b.
              clock.text_before a.created_at b.created_at
              || not (clock.text_before b.created_at a.created_at) && ties a b)
            (select_where (λ r. str_eq r.creator creator && is_null_or host r.host) db.changes))))
