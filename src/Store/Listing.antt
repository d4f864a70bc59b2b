-- ===== src/Store/Listing.antt =====
-- Lists of jobs and of their events: `list_jobs`, `nonterminal_jobs` and `job_events_page` of crates/maxops-store/src/lib.rs. Rows are
-- sorted by the texts of their times; of rows with the same text a parameter, `ties`, says which the
-- database lists later.
pub mod Window
pub mod Visible
pub mod Scoped
use maxops.Prelude.{
  ltb, ℕ, ◌+◌, ◌≤◌, String, ◌≡◌, refl, sym, ap, ◌∙◌, Bool, Bool-cases, true, false, not, ◌&&◌, ◌||◌,
  Option, none, some, List, [], ◌∷◌, ◌++◌, ok, ◌>>=◌, ◌>>◌, ensure, leb, ◌==◌, str_eq,
  if◌then◌else◌, inl, inr, arith, find?, is_some, length, take, select_where, All,
}
use maxops.Proto.Ids.{JobId}
use maxops.Proto.Jobs.{JobRecord, JobEvent}
use maxops.Proto.JobState
use maxops.Proto.JobState.{JobState}
use maxops.Store.Clock.{Clock}
use maxops.Store.Db.{Db}
use maxops.Store.Errors.{Outcome, invalid_list_limit, invalid_event_limit, to_i64}

abbrev pub Ties : Type 0
Ties = JobRecord → JobRecord → Bool

-- `ORDER BY created_at DESC`
abbrev pub is_older : Clock → JobRecord → JobRecord → Bool
is_older clock a b = clock.text_before a.created_at b.created_at

-- The first row is listed after the second.
abbrev pub is_later : Clock → Ties → JobRecord → JobRecord → Bool
is_later clock ties a b = is_older clock a b || not (is_older clock b a) && ties a b

unfoldable pub insert_newest : Clock → Ties → JobRecord → List JobRecord → List JobRecord
insert_newest clock ties r [] = r ∷ []
insert_newest clock ties r (x ∷ xs) =
    let rest = insert_newest clock ties r xs in
    if is_later clock ties r x then x ∷ rest else r ∷ x ∷ xs

unfoldable pub newest_first : Clock → Ties → List JobRecord → List JobRecord
newest_first clock ties [] = []
newest_first clock ties (r ∷ rs) = insert_newest clock ties r (newest_first clock ties rs)

-- `? IS NULL OR column = ?`
abbrev pub is_null_or : Option String → String → Bool
is_null_or none column = true
is_null_or (some value) column = str_eq column value

abbrev pub is_listed : Option String → Option String → JobRecord → Bool
is_listed principal host r = is_null_or principal r.principal && is_null_or host r.host

abbrev pub has_state : List JobState → JobRecord → Bool
has_state [] r = true
has_state (s ∷ states) r = is_some (find? (JobState.eq r.state) (s ∷ states))

unfoldable pub list_jobs :
    Clock → Ties → Option String → Option String → List JobState → ℕ → Db → Outcome (List JobRecord)
list_jobs clock ties principal host states limit db = do
  ensure (leb 1 limit && leb limit 200) invalid_list_limit
  ok (
      take limit (
        select_where (has_state states)
          (take 1000 (newest_first clock ties (select_where (is_listed principal host) db.jobs)))))

-- The states that the code lists as terminal.
abbrev pub is_unfinished : JobRecord → Bool
is_unfinished r = not (
    is_some (
      find? (JobState.eq r.state) (
        JobState.succeeded ∷ JobState.failed ∷ JobState.cancelled ∷ JobState.timed_out
        ∷ JobState.outcome_unknown ∷ [])))

unfoldable pub nonterminal_jobs : Clock → Ties → Db → Outcome (List JobRecord)
nonterminal_jobs clock ties db = do
  jobs ← list_jobs clock ties none none [] 200 db
  ok (select_where is_unfinished jobs)

-- `ORDER BY sequence`: rows stand in the order of their numbers.
unfoldable pub job_events_page : Db → JobId → ℕ → ℕ → Outcome (List JobEvent)
job_events_page db id after limit = do
  ensure (leb 1 limit && leb limit 200) invalid_event_limit
  n ← to_i64 after
  ok (take limit (select_where (λ e. str_eq e.job_id id && ltb n e.sequence) db.job_events))

unfoldable pub job_events : Db → JobId → ℕ → Outcome (List JobEvent)
job_events db id after = job_events_page db id after 200
