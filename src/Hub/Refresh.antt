-- ===== src/Hub/Refresh.antt =====
-- `refresh_change` and `transition_change_state` of crates/maxops-hub/src/lib.rs: a change follows
-- the job of its stage.
use maxops.Prelude.{
  Bool, true, false, not, ◌&&◌, ◌||◌, String, Option, none, some, Result, ok, err, str_eq, is_some,
}
use maxops.Prelude.Programs.{Program, ◌>>=◌, ◌>>◌, lift, pure, if◌then◌else◌}
use maxops.Proto.Ids.{JobId, ChangeId}
use maxops.Proto.Json.{Value, Members, object, member, end, null}
use maxops.Proto.Jobs.{
  Timestamp, JobRecord, ExecutorResponse, status_request, job_response, other_response,
}
use maxops.Proto.JobState
use maxops.Proto.JobState.{JobState}
use maxops.Proto.ChangeState
use maxops.Proto.ChangeState.{ChangeState}
use maxops.Proto.Changes.{
  ChangePlan, ChangeRecord, DeploymentArtifact, DeploymentAction, prepare, build, activate, verify,
  rollback,
}
use maxops.Proto.Deployments.{
  DeploymentReport, action_eq, prepared, built, activated, verified, rolled_back, stale, superseded,
  recovery_failed, outcome_unknown, failed,
}
use maxops.Store.Db.{Db}
use maxops.Store.Errors.{Outcome, StoreError, change_revision_changed}
use maxops.Store.Jobs.{get_owned_job}
use maxops.Store.Changes.{transition_change, get_owned_change}
use maxops.Hub.Errors.{HubError, store, as_api}
use maxops.Hub.Projection.{call_store, project_target_job}
use maxops.Hub.World.{World, Fleet, on_db, query, mapped}

-- The job of the stage that the change is in.
unfoldable pub stage_job : ChangeRecord → Option JobId
stage_job change = elim change.state [
  | ChangeState.checking ↦ change.jobs.prepare
  | ChangeState.building ↦ change.jobs.build
  | ChangeState.publishing ↦ change.jobs.build
  | ChangeState.activating ↦ change.jobs.activate
  | ChangeState.verifying ↦ change.jobs.verify
  | ChangeState.recovering ↦ change.jobs.rollback
  | _ ↦ none
]

unfoldable pub expected_action : ChangeState → Option DeploymentAction
expected_action ChangeState.checking = some prepare
expected_action ChangeState.building = some build
expected_action ChangeState.publishing = some build
expected_action ChangeState.activating = some activate
expected_action ChangeState.verifying = some verify
expected_action ChangeState.recovering = some rollback
expected_action _ = none

-- `Value::get` of an object.
unfoldable pub get_member : String → Members → Option Value
get_member key end = none
get_member key (member name value rest) = elim (str_eq name key) [
  | true ↦ some value
  | false ↦ get_member key rest
]

deployment_value : Option Value → Option Value
deployment_value (some (object members)) = elim (get_member "deployment" members) [
  | some null ↦ none
  | found ↦ found
]
deployment_value _ = none

-- The state after a job that ended without a report.
unfoldable pub state_without_report : JobState → ChangeState → ChangeState
state_without_report JobState.outcome_unknown current = ChangeState.outcome_unknown
state_without_report ended ChangeState.recovering = ChangeState.recovery_failed
state_without_report ended current = ChangeState.failed

-- The plan after a report: a preparation fills in the derivation and the digest.
unfoldable pub reported_plan : DeploymentReport → ChangePlan → ChangePlan
reported_plan report plan = elim report.status [
  | prepared ↦ record plan { drv_path = report.drv_path; lock_digest = report.lock_digest }
  | _ ↦ plan
]

artifact_of :
    ChangePlan
    → String
    → DeploymentReport
    → Option String
    → Option String
    → Option String
    → Option DeploymentArtifact
artifact_of plan host report (some out_path) (some drv_path) (some lock_digest) = some (record {
  builder_host = host;
  source_commit = plan.source_commit;
  tree_hash = plan.tree_hash;
  lock_digest = lock_digest;
  drv_path = drv_path;
  out_path = out_path;
  built_at = report.completed_at;
})
artifact_of plan host report _ _ _ = none

-- The artifact that a report of a build proves.
unfoldable pub built_artifact : DeploymentReport → String → ChangePlan → Option DeploymentArtifact
unfolding artifact_of
built_artifact report host plan =
    artifact_of plan host report report.out_path plan.drv_path plan.lock_digest

unfoldable pub reported_artifact :
    DeploymentReport → String → ChangeRecord → Option DeploymentArtifact
unfolding built_artifact
reported_artifact report host change = elim report.status [
  | built ↦ elim (built_artifact report host change.plan) [
    | some artifact ↦ some artifact
    | none ↦ change.artifact
  ]
  | _ ↦ change.artifact
]

-- The state after a report.
unfoldable pub reported_state : DeploymentReport → String → ChangeRecord → ChangeState
unfolding built_artifact
reported_state report host change = elim report.status [
  | prepared ↦ elim (is_some report.drv_path && is_some report.lock_digest) [
    | true ↦ ChangeState.prepared
    | false ↦ ChangeState.failed
  ]
  | built ↦ elim (is_some (built_artifact report host change.plan)) [
    | true ↦ ChangeState.ready
    | false ↦ ChangeState.failed
  ]
  | activated ↦ ChangeState.verifying
  | verified ↦ ChangeState.succeeded
  | rolled_back ↦ ChangeState.rolled_back
  | stale ↦ ChangeState.stale
  | superseded ↦ ChangeState.superseded
  | recovery_failed ↦ ChangeState.recovery_failed
  | outcome_unknown ↦ ChangeState.outcome_unknown
  | failed ↦ elim (ChangeState.eq change.state ChangeState.recovering) [
    | true ↦ ChangeState.recovery_failed
    | false ↦ ChangeState.failed
  ]
]

unfoldable pub recovery_of : DeploymentReport → Option String → Option String
recovery_of report before = elim report.status [
  | rolled_back ↦ some report.detail
  | recovery_failed ↦ some report.detail
  | superseded ↦ some report.detail
  | _ ↦ before
]

abbrev or_before : Option String → Option String → Option String
or_before none before = before
or_before (some text) before = some text

unfoldable pub transition_change_state :
    ChangeRecord → ChangeState → Option String → Timestamp → Program Db HubError ChangeRecord
transition_change_state change next recovery at db =
    let r = call_store (
      transition_change at change.plan.change_id change.creator
        (record {
          expected_revision = change.revision;
          next = next;
          plan = change.plan;
          artifact = change.artifact;
          jobs = change.jobs;
          recovery_state = or_before recovery change.recovery_state;
        })
        db) in
    (r.0, elim r.1 [ ok a ↦ ok a | err e ↦ err (as_api e) ])

-- The change with what the report proves, before its state moves.
abbrev pub reported_change : DeploymentReport → String → ChangeRecord → ChangeRecord
reported_change report host change = record change {
  plan = reported_plan report change.plan;
  artifact = reported_artifact report host change;
}

-- The message of the error contains "revision changed".
unfoldable pub lost_change_race : StoreError → Bool
lost_change_race change_revision_changed = true
lost_change_race _ = false

-- A transition that lost a race replies with the change that the caller has.
unfoldable pub or_current : ChangeRecord → Outcome ChangeRecord → Result HubError ChangeRecord
or_current current (ok change) = ok change
or_current current (err e) = elim (lost_change_race e) [
  | true ↦ ok current
  | false ↦ err (as_api (store e))
]

unfoldable pub apply_report :
    String
    → ChangeRecord
    → JobRecord
    → DeploymentReport
    → Timestamp
    → Program Db HubError ChangeRecord
apply_report principal change job report at db =
    let reported = reported_change report job.host change in
    let r =
      transition_change at change.plan.change_id principal
        (record {
          expected_revision = change.revision;
          next = reported_state report job.host (record change { plan = reported.plan });
          plan = reported.plan;
          artifact = reported.artifact;
          jobs = change.jobs;
          recovery_state = recovery_of report change.recovery_state;
        })
        db in
    (r.0, or_current reported r.1)

abbrev stage_lost : String
stage_lost = "stage ended without a deployment report"

-- `decode` reads a report from JSON.
module _ (decode : Value → Option DeploymentReport) where
  -- The report of the action in the result of a job.
  unfoldable pub report_of : DeploymentAction → JobRecord → Option DeploymentReport
  unfolding deployment_value
  report_of action job = elim (deployment_value job.result) [
    | none ↦ none
    | some value ↦ elim (decode value) [
      | none ↦ none
      | some report ↦ elim (action_eq report.action action) [ true ↦ some report | false ↦ none ]
    ]
  ]

  -- What follows from the end of the stage's job.
  unfoldable pub apply_ending :
      String
      → ChangeRecord
      → JobRecord
      → Option DeploymentReport
      → Timestamp
      → Program Db HubError ChangeRecord
  apply_ending principal change job none =
      transition_change_state change (state_without_report job.state change.state) (some stage_lost)
  apply_ending principal change job (some report) = apply_report principal change job report

  settle :
      String
      → ChangeRecord
      → JobRecord
      → Option DeploymentAction
      → Timestamp
      → Program Db HubError ChangeRecord
  unfolding report_of
  settle principal change job none at db = (db, ok change)
  settle principal change job (some action) at db =
      apply_ending principal change job (report_of action job) at db

  unfoldable pub settle_stage :
      String → ChangeRecord → JobRecord → Timestamp → Program Db HubError ChangeRecord
  unfolding settle
  settle_stage principal change job = settle principal change job (expected_action change.state)

  module _ {O : Type 0} (fleet : Fleet O) where
    open fleet use {agent_request}

    abbrev pub project_answer :
        JobRecord → Option ExecutorResponse → Program (World O) HubError JobRecord
    project_answer current (some (job_response target)) =
        mapped fleet (on_db fleet (λ at. project_target_job at at current target))
    project_answer current (some other_response) = pure current
    project_answer current none = pure current

    -- A job that is not settled is looked up at its executor.
    unfoldable pub follow_job : JobRecord → Program (World O) HubError JobRecord
    follow_job current w =
        if not (JobState.is_terminal current.state)
          || JobState.eq current.state JobState.outcome_unknown
        then (let r = agent_request current.host (status_request current.job_id) w in
            project_answer current r.1 r.0)
        else (w, ok current)

    unfoldable pub refresh_stage :
        String → ChangeRecord → JobId → Program (World O) HubError ChangeRecord
    refresh_stage principal change id = do
      found ← mapped fleet (query fleet (λ db. get_owned_job db principal id))
      current ← follow_job found
      λ w.
          if not (JobState.is_terminal current.state)
          then (w, ok change)
          else on_db fleet (settle_stage principal change current) w

    abbrev refresh_job :
        String → ChangeRecord → Option JobId → Program (World O) HubError ChangeRecord
    refresh_job principal change none = pure change
    refresh_job principal change (some id) = refresh_stage principal change id

    -- `permitted` is `deployment_for` of the principal.
    unfoldable pub refresh_change :
        String
        → (String → Result HubError (Unit {0}))
        → ChangeId
        → Program (World O) HubError ChangeRecord
    refresh_change principal permitted id = do
      change ← mapped fleet (query fleet (λ db. get_owned_change db principal id))
      lift (permitted change.plan.deployment_profile)
      refresh_job principal change (stage_job change)
