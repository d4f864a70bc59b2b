-- ===== src/Hub/Finish.antt =====
-- `finish` of crates/maxops-hub/src/deployment_workflow.rs: the loop that settles the job of a
-- workflow. Rounds are counted by fuel, and `others` is what other tasks do to the tables before
-- a read and before a write of a round.
use maxops.Prelude.{ℕ, zero, suc, Bool, true, false, not, ◌&&◌, Option, none, some, ok, err}
use maxops.Prelude.Programs.{if◌then◌else◌}
use maxops.Proto.Ids.{JobId}
use maxops.Proto.Json.{Value, object, member, end, string}
use maxops.Proto.Jobs.{Timestamp, JobRecord}
use maxops.Proto.JobState
use maxops.Proto.JobState.{JobState, queued, reconciling, failed, outcome_unknown, is_terminal}
use maxops.Store.Db.{Db}
use maxops.Store.Errors.{StoreError, Outcome, job_revision_changed}
use maxops.Store.Jobs.{get_job, transition_job}

pub record Others : Type 0 where
  pub before_read : ℕ → Db → Db
  pub before_write : ℕ → Db → Db

-- The outcome that the job can have: an unknown one is none for a job that was never started.
unfoldable pub final_state : JobState → JobState → JobState
final_state wanted current =
    elim (JobState.eq wanted outcome_unknown && JobState.eq current queued) [
      | true ↦ failed
      | false ↦ wanted
    ]

-- The next step towards it: an unknown outcome is reached through `reconciling`.
unfoldable pub next_state : JobState → JobState → JobState
next_state final current =
    elim (JobState.eq final outcome_unknown && not (JobState.eq current reconciling)) [
      | true ↦ reconciling
      | false ↦ final
    ]

abbrev pub hub_event : Value
hub_event = object (member "executor" (string "hub") end)

-- A round ends the loop with its result, or leaves it to another round.
pub data Round : Type 0 where
  ended : Outcome (Unit {0}) → Round
  again : Round

-- `(next == state).then_some(&result)`
abbrev pub result_at : JobState → JobState → Value → Option Value
result_at next final result = elim (JobState.eq next final) [ true ↦ some result | false ↦ none ]

-- `error.to_string() == "job revision changed"`
unfoldable pub lost_race : StoreError → Bool
lost_race job_revision_changed = true
lost_race _ = false

unfoldable pub after_step : JobState → JobState → Outcome JobRecord → Round
after_step next final (ok job) = elim (JobState.eq next final) [
  | true ↦ ended (ok tt)
  | false ↦ again
]
after_step next final (err e) = elim (lost_race e) [ true ↦ again | false ↦ ended (err e) ]

unfoldable pub go_on :
    Db → Round → (Db → Db × Option (Outcome (Unit {0}))) → Db × Option (Outcome (Unit {0}))
go_on db (ended outcome) rest = (db, some outcome)
go_on db again rest = rest db

module _ (at : Timestamp) (id : JobId) (wanted : JobState) (result : Value) where
  unfoldable pub finish_step : (Db → Db) → JobRecord → Db → Db × Round
  finish_step before_write job db =
      let final = final_state wanted job.state in
      let next = next_state final job.state in
      let r =
        transition_job at id job.revision next hub_event (result_at next final result)
          (before_write db) in
      (r.0, after_step next final r.1)

  unfoldable pub finish_job : (Db → Db) → Outcome JobRecord → Db → Db × Round
  finish_job before_write (err e) db = (db, ended (err e))
  finish_job before_write (ok job) db =
      if is_terminal job.state then (db, ended (ok tt)) else finish_step before_write job db

  unfoldable pub finish_round : (Db → Db) → Db → Db × Round
  finish_round before_write db = finish_job before_write (get_job db id) db

  -- There is no result when the fuel runs out.
  unfoldable pub finish : Others → ℕ → Db → Db × Option (Outcome (Unit {0}))
  finish others zero db = (db, none)
  finish others (suc rounds) db =
      let r = finish_round (others.before_write rounds) (others.before_read rounds db) in
      go_on r.0 r.1 (finish others rounds)
