-- ===== src/Store/Remediation.antt =====
-- Remediation attempts of crates/maxops-store/src/lib.rs: `begin_remediation`,
-- `finish_remediation` and `get_remediation`. New identifiers and times are arguments.
pub mod Inversion
pub mod Exclusive
pub mod Retry
pub mod Budget
use mathlib.Core.Option
use maxops.Prelude.{
  ℕ, ◌+◌, String, Bool, true, false, not, ◌&&◌, Option, none, some, List, [], ◌∷◌, ◌++◌, ok, err,
  ◌>>=◌, ◌>>◌, ensure, ok_or, leb, ltb, ◌==◌, str_eq, if◌then◌else◌, find?, update_where,
  select_where, count_where, is_some,
}
use maxops.Proto.Ids.{JobId, ChangeId, EventId, EpisodeId, RemediationId}
use maxops.Proto.Json.{Value, object, member, end, string, unsigned}
use maxops.Proto.Jobs.{Timestamp}
use maxops.Proto.EventKind
use maxops.Proto.RemediationState
use maxops.Proto.RemediationState.{RemediationState}
use maxops.Proto.Events.{EventRecord, RemediationRecord}
use maxops.Proto.Names.{bounded}
use maxops.Store.Clock.{Clock}
use maxops.Store.Db.{Db}
use maxops.Store.Errors.{
  Outcome, constraint, no_remediation_attempts, event_not_found, active_for_episode,
  active_for_host, attempts_exhausted, cooldown_active, outcome_not_terminal, invalid_summary,
  remediation_not_found, remediation_revision_changed, remediation_terminal,
  invalid_remediation_attempt, u16_max, to_i64, transact,
}
use maxops.Store.Jobs.{find_job}
use maxops.Store.Events.{
  NewFleetEvent, find_event, insert_fleet_event, refers_to_job, refers_to_change,
}

-- `WHERE id = ? AND principal = ?`
abbrev pub is_remediation : RemediationId → String → RemediationRecord → Bool
is_remediation id principal r = str_eq r.remediation_id id && str_eq r.principal principal

-- `u16::try_from(attempt)` of `row_to_remediation`
unfoldable pub get_remediation : Db → RemediationId → String → Outcome RemediationRecord
get_remediation db id principal = do
  row ← ok_or (find? (is_remediation id principal) db.remediations) remediation_not_found
  ensure (leb row.attempt u16_max) invalid_remediation_attempt
  ok row

abbrev pub is_active : RemediationRecord → Bool
is_active r = RemediationState.eq r.state RemediationState.active

abbrev pub of_episode : EpisodeId → RemediationRecord → Bool
of_episode episode_id r = str_eq r.episode_id episode_id

abbrev pub of_host : String → RemediationRecord → Bool
of_host host r = str_eq r.host host

-- `WHERE related_job_id = ? AND principal = ?`
abbrev pub is_of_job : JobId → String → RemediationRecord → Bool
is_of_job job_id principal r =
    elim r.related_job_id [ none ↦ false | some id ↦ str_eq id job_id ]
    && str_eq r.principal principal

-- `MAX(started_at)`, by the order of the texts
unfoldable pub last_started : Clock → List RemediationRecord → Option Timestamp
last_started clock [] = none
last_started clock (r ∷ rs) = elim (last_started clock rs) [
  | none ↦ some r.started_at
  | some t ↦ some (if clock.text_before t r.started_at then r.started_at else t)
]

-- `now.as_second() - last_started.as_second() >= cooldown_seconds`
unfoldable pub cooled_down : Clock → Timestamp → ℕ → Option Timestamp → Bool
cooled_down clock now cooldown none = true
cooled_down clock now cooldown (some t) = leb (clock.as_second t + cooldown) (clock.as_second now)

-- The arguments of `begin_remediation`, with the identifiers that the code makes.
pub record BeginRemediation : Type 0 where
  pub remediation_id : RemediationId
  pub lifecycle_event : EventId
  pub now : Timestamp
  pub event_id : EventId
  pub host : String
  pub principal : String
  pub related_job_id : JobId
  pub max_attempts : ℕ
  pub cooldown_seconds : ℕ

abbrev pub new_remediation : BeginRemediation → EpisodeId → ℕ → RemediationRecord
new_remediation b episode_id attempt = record {
  remediation_id = b.remediation_id;
  event_id = b.event_id;
  episode_id = episode_id;
  host = b.host;
  principal = b.principal;
  attempt = attempt;
  revision = 1;
  state = RemediationState.active;
  started_at = b.now;
  finished_at = none;
  related_job_id = some b.related_job_id;
  related_change_id = none;
  summary = none;
}

abbrev pub started_event : BeginRemediation → EventRecord → ℕ → NewFleetEvent
started_event b event attempt = record {
  source = "maxops.remediation";
  fingerprint = event.fingerprint;
  episode_id = event.episode_id;
  kind = EventKind.remediation_started;
  host = b.host;
  occurred_at = b.now;
  related_job_id = some b.related_job_id;
  related_change_id = none;
  payload = object (
      member "remediation_id" (string b.remediation_id)
        (member "attempt" (unsigned attempt) (member "principal" (string b.principal) end)));
}

abbrev pub attempts_of : EpisodeId → Db → ℕ
attempts_of episode_id db = count_where (of_episode episode_id) db.remediations

-- The checks before the attempt is recorded.
unfoldable pub may_begin : Clock → BeginRemediation → EpisodeId → Db → Outcome (Unit {0})
may_begin clock b episode_id db = do
  ensure (count_where (λ r. is_active r && of_episode episode_id r) db.remediations == 0)
      active_for_episode
  ensure (count_where (λ r. is_active r && of_host b.host r) db.remediations == 0) active_for_host
  ensure (ltb (attempts_of episode_id db) b.max_attempts) attempts_exhausted
  ensure
      (cooled_down clock b.now b.cooldown_seconds
        (last_started clock (select_where (of_episode episode_id) db.remediations)))
      cooldown_active

abbrev pub with_remediation : RemediationRecord → Db → Db
with_remediation r db = record db { remediations = db.remediations ++ r ∷ [] }

-- The schema refuses an identifier in use and a job that is not there; the other constraints hold
-- by the checks.
unfoldable pub record_attempt : Clock → BeginRemediation → EventRecord → Db → Outcome Db
record_attempt clock b event db =
    let attempt = attempts_of event.episode_id db + 1 in
    do
      may_begin clock b event.episode_id db
      ensure
          (not (is_some (find? (λ r. str_eq r.remediation_id b.remediation_id) db.remediations))
            && is_some (find_job db b.related_job_id))
          constraint
      insert_fleet_event b.lifecycle_event (started_event b event attempt) b.now
          (with_remediation (new_remediation b event.episode_id attempt) db)

-- The identifier to reply with.
unfoldable pub begin_tx : Clock → BeginRemediation → Db → Outcome (Db × RemediationId)
begin_tx clock b db = elim (find? (is_of_job b.related_job_id b.principal) db.remediations) [
  | some existing ↦ ok (db, existing.remediation_id)
  | none ↦ do
    event ← ok_or (find_event db b.event_id) event_not_found
    ensure (str_eq event.host b.host) event_not_found
    db' ← record_attempt clock b event db
    ok (db', b.remediation_id)
]

unfoldable pub begin_remediation : Clock → BeginRemediation → Db → Db × Outcome RemediationRecord
begin_remediation clock b db =
    transact db (do ensure (ltb 0 b.max_attempts) no_remediation_attempts; begin_tx clock b db)
      (λ db' id. get_remediation db' id b.principal)

pub record RemediationCompletion : Type 0 where
  pub expected_revision : ℕ
  pub outcome : RemediationState
  pub related_job_id : Option JobId
  pub related_change_id : Option ChangeId
  pub summary : String

-- `WHERE id = ? AND principal = ? AND revision = ?`
abbrev pub is_remediation_at : RemediationId → String → ℕ → RemediationRecord → Bool
is_remediation_at id principal revision r = is_remediation id principal r && r.revision == revision

-- At the greatest `i64`, SQL's `revision + 1` is the real number 2 ^ 63, which reads back as no
-- integer; the model keeps the number.
abbrev pub complete : Timestamp → RemediationCompletion → RemediationRecord → RemediationRecord
complete now c r = record r {
  state = c.outcome;
  revision = r.revision + 1;
  finished_at = some now;
  related_job_id = c.related_job_id;
  related_change_id = c.related_change_id;
  summary = some c.summary;
}

abbrev pub finished_event :
    Timestamp → RemediationCompletion → RemediationRecord → String → NewFleetEvent
finished_event now c row fingerprint = record {
  source = "maxops.remediation";
  fingerprint = fingerprint;
  episode_id = row.episode_id;
  kind = EventKind.remediation_finished;
  host = row.host;
  occurred_at = now;
  related_job_id = c.related_job_id;
  related_change_id = c.related_change_id;
  payload = object (
      member "remediation_id" (string row.remediation_id) (
        member "outcome" (string (RemediationState.as_str c.outcome))
          (member "summary" (string c.summary) end)));
}

abbrev pub completed : Timestamp → RemediationId → String → RemediationCompletion → Db → Db
completed now id principal c db = record db {
  remediations =
      update_where (is_remediation_at id principal c.expected_revision) (complete now c)
        db.remediations;
}

unfoldable pub finish_tx :
    EventId
    → Timestamp
    → RemediationId
    → String
    → RemediationCompletion
    → Db
    → Outcome (Db × Unit {0})
finish_tx lifecycle_event now id principal c db = do
  row ← ok_or (find? (is_remediation id principal) db.remediations) remediation_not_found
  ensure (row.revision == c.expected_revision) remediation_revision_changed
  ensure (is_active row) remediation_terminal
  event ← ok_or (find_event db row.event_id) constraint
  n ← to_i64 c.expected_revision
  ensure (refers_to_job db c.related_job_id && refers_to_change db c.related_change_id) constraint
  db' ←
      insert_fleet_event lifecycle_event (finished_event now c row event.fingerprint) now
        (completed now id principal c db)
  ok (db', tt {0})

unfoldable pub finish_remediation :
    EventId
    → Timestamp
    → RemediationId
    → String
    → RemediationCompletion
    → Db
    → Db × Outcome RemediationRecord
finish_remediation lifecycle_event now id principal c db =
    transact db
      (do
        ensure (not (RemediationState.eq c.outcome RemediationState.active)) outcome_not_terminal
        ensure (bounded 1024 c.summary) invalid_summary
        finish_tx lifecycle_event now id principal c db)
      (λ db' u. get_remediation db' id principal)
