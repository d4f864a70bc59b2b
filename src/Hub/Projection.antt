-- ===== src/Hub/Projection.antt =====
-- How the hub follows the executor's record of a job: `project_target_job`, and the steps of a job
-- that runs on the hub, `enter_local_job` and `fail_local_job`, of crates/maxops-hub/src/lib.rs.
use maxops.Prelude.{
  Bool, true, false, not, ◌&&◌, String, Option, none, some, Result, ok, err, ensure, str_eq,
}
use maxops.Prelude.Programs.{Program, ◌>>=◌, ◌>>◌, lift, if◌then◌else◌}
use maxops.Proto.Ids.{JobId}
use maxops.Proto.Json.{Value, object, member, end, string, unsigned}
use maxops.Proto.Jobs.{Timestamp, JobRecord}
use maxops.Proto.JobState
use maxops.Proto.JobState.{
  JobState, queued, dispatching, running, reconciling, failed, outcome_unknown, can_transition_to,
  is_terminal,
}
use maxops.Store.Db.{Db}
use maxops.Store.Errors.{Outcome}
use maxops.Store.Jobs.{transition_job, get_job}
use maxops.Hub.Errors.{HubError, store, report}

-- A call of the store, whose error the hub passes on.
unfoldable pub call_store {ℓ} : {A : Type ℓ} → Db × Outcome A → Db × Result HubError A
call_store (db, ok a) = (db, ok a)
call_store (db, err e) = (db, err (store e))

unfoldable pub step_job :
    Timestamp → JobRecord → JobState → Value → Option Value → Program Db HubError JobRecord
step_job at job next payload result db =
    call_store (transition_job at job.job_id job.revision next payload result db)

abbrev executor_payload : JobRecord → Value
executor_payload target =
    object (
      member "source" (string "executor") (member "target_revision" (unsigned target.revision) end))

-- An unknown outcome is reached through `reconciling`.
unfoldable pub needs_reconciling : JobState → JobState → Bool
needs_reconciling current target =
    JobState.eq target outcome_unknown
    && not (can_transition_to current outcome_unknown)
    && can_transition_to current reconciling

unfoldable pub enter_reconciling : Timestamp → JobRecord → JobRecord → Program Db HubError JobRecord
enter_reconciling at current target db =
    if needs_reconciling current.state target.state
    then step_job at current reconciling (executor_payload target) target.result db
    else (db, ok current)

unfoldable pub take_state : Timestamp → JobRecord → JobRecord → Program Db HubError JobRecord
take_state at target current db =
    if not (can_transition_to current.state target.state)
    then (db, ok current)
    else step_job at current target.state (executor_payload target) target.result db

unfoldable pub is_same_job : JobRecord → JobRecord → Bool
is_same_job current target =
    str_eq current.job_id target.job_id
    && str_eq current.host target.host
    && str_eq current.spec_hash target.spec_hash

-- `at` and `later` are the times of the two transitions.
unfoldable pub project_target_job :
    Timestamp → Timestamp → JobRecord → JobRecord → Program Db HubError JobRecord
project_target_job at later current target =
    lift (ensure (is_same_job current target) (report "executor job identity mismatch")) >> λ db.
    if JobState.eq current.state target.state
    then (db, ok current)
    else (enter_reconciling at current target >>= take_state later target) db

abbrev hub_payload : Value
hub_payload = object (member "executor" (string "hub") end)

-- One conditional step of `enter_local_job`.
unfoldable pub step_from :
    JobState → JobState → Timestamp → JobRecord → Program Db HubError JobRecord
step_from current next at job db =
    if JobState.eq job.state current then step_job at job next hub_payload none db else (db, ok job)

unfoldable pub check_running : JobRecord → Result HubError JobRecord
check_running job = elim (JobState.eq job.state running) [
  | true ↦ ok job
  | false ↦ err (report "local job is not runnable")
]

unfoldable pub enter_local_job : Timestamp → Timestamp → JobRecord → Program Db HubError JobRecord
enter_local_job at later job =
    step_from queued dispatching at job >>= step_from dispatching running later >>= λ job.
    lift (check_running job)

abbrev pub code_payload : String → String → Value
code_payload name code = object (member name (string code) end)

-- The error of the transition is dropped.
unfoldable pub fail_job : Timestamp → JobId → String → Db → JobRecord → Db
fail_job at id code db job =
    if not (is_terminal job.state) && can_transition_to job.state failed
    then (transition_job at id job.revision failed (code_payload "code" code)
        (some (code_payload "error" code)) db).0
    else db

unfoldable pub fail_local_job : Timestamp → JobId → String → Db → Db
fail_local_job at id code db = elim (get_job db id) [
  | err e ↦ db
  | ok job ↦ fail_job at id code db job
]
