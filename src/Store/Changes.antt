-- ===== src/Store/Changes.antt =====
-- Changes: `create_change`, `get_change`, `get_owned_change`, `transition_change` and the link of a
-- stage or workflow job in `submit_linked_job`, as in crates/maxops-store/src/lib.rs.
pub mod Stale
use maxops.Prelude.{
  ℕ, ◌+◌, String, Bool, true, false, not, ◌&&◌, ◌||◌, Option, none, some, [], ◌∷◌, ◌++◌, ok, ◌>>=◌,
  ◌>>◌, ensure, ok_or, ◌==◌, str_eq, find?, update_where, count_where, is_some,
}
use maxops.Proto.Ids.{JobId, ChangeId}
use maxops.Proto.Jobs.{Timestamp, JobRecord}
use maxops.Proto.JobState
use maxops.Proto.ChangeState
use maxops.Proto.ChangeState.{ChangeState}
use maxops.Proto.Changes.{
  ChangePlan, ChangeRecord, ChangeJobs, DeploymentArtifact, DeploymentAction, no_jobs, prepare,
  build, activate, verify, rollback,
}
use maxops.Proto.Names.{bounded}
use maxops.Store.Db.{Db, ChangeRow}
use maxops.Store.Errors.{
  Outcome, constraint, change_not_found, change_revision_changed, change_revision_overflow,
  invalid_change_creator, invalid_change_transition, workflow_ownership_changed,
  workflow_not_running, change_owned_by_workflow, to_i64, next_revision, transact,
}
use maxops.Store.Jobs.{find_job}

abbrev pub has_change_id : ChangeId → ChangeRow → Bool
has_change_id id r = str_eq r.id id

-- `WHERE id = ? AND creator = ?`
abbrev pub is_owned : ChangeId → String → ChangeRow → Bool
is_owned id creator r = has_change_id id r && str_eq r.creator creator

-- `WHERE id = ? AND creator = ? AND revision = ?`
abbrev pub is_owned_at : ChangeId → String → ℕ → ChangeRow → Bool
is_owned_at id creator revision r = is_owned id creator r && r.revision == revision

unfoldable pub find_change : Db → ChangeId → Option ChangeRow
find_change db id = find? (has_change_id id) db.changes

unfoldable pub get_change : Db → ChangeId → Outcome ChangeRecord
get_change db id = do row ← ok_or (find_change db id) change_not_found; ok row.change

unfoldable pub get_owned_change : Db → String → ChangeId → Outcome ChangeRecord
get_owned_change db creator id = do
  change ← get_change db id
  ensure (str_eq change.creator creator) change_not_found
  ok change

abbrev pub new_change : Timestamp → ChangePlan → String → JobId → ChangeRow
new_change at plan creator prepare_job = record {
  id = plan.change_id;
  host = plan.target_host;
  change = record {
    plan = plan;
    creator = creator;
    revision = 1;
    state = ChangeState.checking;
    artifact = none;
    jobs = record no_jobs { prepare = some prepare_job };
    recovery_state = none;
    updated_at = at;
  };
  created_at = at;
  workflow_job_id = none;
}

-- The schema refuses a second row with the identifier, and a workspace that is not there.
create_change_tx : Timestamp → ChangePlan → String → JobId → Db → Outcome (Db × Unit {0})
create_change_tx at plan creator prepare_job db = do
  ensure (bounded 128 creator) invalid_change_creator
  revision ← to_i64 plan.workspace_revision
  ensure (is_some (find? (λ w. str_eq w.workspace_id plan.workspace_id) db.workspaces)) constraint
  ensure (not (is_some (find_change db plan.change_id))) constraint
  ok (record db { changes = db.changes ++ new_change at plan creator prepare_job ∷ [] }, tt)

unfoldable pub create_change :
    Timestamp → ChangePlan → String → JobId → Db → Db × Outcome ChangeRecord
unfolding create_change_tx
create_change at plan creator prepare_job db =
    transact db (create_change_tx at plan creator prepare_job db)
      (λ db' _. get_change db' plan.change_id)

pub record ChangeTransition : Type 0 where
  pub expected_revision : ℕ
  pub next : ChangeState
  pub plan : ChangePlan
  pub artifact : Option DeploymentArtifact
  pub jobs : ChangeJobs
  pub recovery_state : Option String

-- `current == next || current.can_transition_to(next)`
abbrev pub may_become : ChangeState → ChangeState → Bool
may_become current next = ChangeState.eq current next || ChangeState.can_transition_to current next

abbrev pub set_change : ChangeTransition → ℕ → Timestamp → ChangeRow → ChangeRow
set_change update revision at r = record r {
  change = record r.change {
    plan = update.plan;
    revision = revision;
    state = update.next;
    artifact = update.artifact;
    jobs = update.jobs;
    recovery_state = update.recovery_state;
    updated_at = at;
  };
}

unfoldable pub transition_change_tx :
    Timestamp → ChangeId → String → ChangeTransition → Db → Outcome (Db × Unit {0})
transition_change_tx at id creator update db = do
  row ← ok_or (find? (is_owned id creator) db.changes) change_not_found
  ensure (row.revision == update.expected_revision) change_revision_changed
  ensure (may_become row.state update.next) invalid_change_transition
  new_revision ← next_revision change_revision_overflow row.revision
  bound ← to_i64 new_revision
  expected ← to_i64 update.expected_revision
  ensure (count_where (is_owned_at id creator expected) db.changes == 1) change_revision_changed
  ok (
    record db {
      changes =
          update_where (is_owned_at id creator expected) (set_change update bound at) db.changes;
    },
    tt,
  )

unfoldable pub transition_change :
    Timestamp → ChangeId → String → ChangeTransition → Db → Db × Outcome ChangeRecord
transition_change at id creator update db =
    transact db (transition_change_tx at id creator update db) (λ db' _. get_change db' id)

-- `workflow = none` with `action = none` claims the change for a new workflow job; an action links
-- a stage.
pub record ChangeJobLink : Type 0 where
  pub change : ChangeRecord
  pub next : ChangeState
  pub action : Option DeploymentAction
  pub workflow : Option JobId

abbrev pub set_stage : Option DeploymentAction → JobId → ChangeJobs → ChangeJobs
set_stage none id jobs = jobs
set_stage (some build) id jobs = record jobs { build = some id }
set_stage (some activate) id jobs = record jobs { activate = some id }
set_stage (some verify) id jobs = record jobs { verify = some id }
set_stage (some rollback) id jobs = record jobs { rollback = some id }
set_stage (some prepare) id jobs = record jobs { prepare = some id }

-- LEFT JOIN jobs ON jobs.id = changes.workflow_job_id
abbrev pub workflow_job : Db → Option JobId → Option JobRecord
workflow_job db none = none
workflow_job db (some owner) = find_job db owner

abbrev pub is_running : Option JobRecord → Bool
is_running none = false
is_running (some j) = JobState.eq j.state JobState.running && not j.cancel_requested

-- No workflow owns the change, or its job is over with a known outcome.
abbrev pub is_released : Option JobRecord → Bool
is_released none = true
is_released (some j) =
    JobState.is_terminal j.state && not (JobState.eq j.state JobState.outcome_unknown)

abbrev pub same_owner : Option JobId → JobId → Bool
same_owner none workflow = false
same_owner (some owner) workflow = str_eq owner workflow

-- Who may link a job: the workflow that owns the change and runs, or anyone when none does.
abbrev pub check_owner : Db → Option JobId → Option JobId → Outcome (Unit {0})
check_owner db owner (some workflow) = do
  ensure (same_owner owner workflow) workflow_ownership_changed
  ensure (is_running (workflow_job db owner)) workflow_not_running
check_owner db owner none = ensure (is_released (workflow_job db owner)) change_owned_by_workflow

-- At the greatest `i64`, SQL's `revision + 1` is the real number 2 ^ 63, which reads back as no
-- integer; the model keeps the number.
abbrev pub set_link : Timestamp → JobId → ChangeJobLink → ChangeRow → ChangeRow
set_link at id link r = record r {
  change = record r.change {
    revision = r.revision + 1;
    state = link.next;
    jobs = set_stage link.action id link.change.jobs;
    updated_at = at;
  };
  workflow_job_id = elim link.action [ none ↦ some id | some _ ↦ r.workflow_job_id ];
}

-- The part of `submit_linked_job` under `if let Some(link)`. The UPDATE's number of rows is not
-- read; the revision in its condition is the one that was just compared.
unfoldable pub link_change : Timestamp → String → JobId → ChangeJobLink → Db → Outcome Db
link_change at principal id link db = do
  row ← ok_or (find? (is_owned link.change.plan.change_id principal) db.changes) change_not_found
  ensure (row.revision == link.change.revision) change_revision_changed
  check_owner db row.workflow_job_id link.workflow
  ensure (may_become link.change.state link.next) invalid_change_transition
  expected ← to_i64 link.change.revision
  ok (record db {
    changes =
        update_where (is_owned_at link.change.plan.change_id principal expected)
          (set_link at id link) db.changes;
  })
