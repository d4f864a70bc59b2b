-- ===== src/Hub/Stage.antt =====
-- `submit_change_stage_owned`, `runtime_matches_plan` and `operation_for_deployment` of
-- crates/maxops-hub/src/lib.rs: a stage of a change is submitted as a job.
use maxops.Prelude.{
  ℕ, Bool, true, false, not, ◌&&◌, ltb, ◌==◌, String, Option, none, some, Result, ok, err, str_eq,
  ensure, ok_or,
}
use maxops.Prelude.Programs.{Program, ◌>>=◌, ◌>>◌, lift, read, if◌then◌else◌}
use maxops.Proto.Ids.{JobId, ChangeId}
use maxops.Proto.Json.{Value}
use maxops.Proto.Jobs.{Timestamp, NewJob, JobRecord}
use maxops.Proto.ChangeState.{ChangeState}
use maxops.Proto.Changes.{
  ChangePlan, ChangeRecord, DeploymentAction, prepare, build, activate, verify, rollback,
}
use maxops.Proto.Deployments.{DeploymentJobSpec, action_eq}
use maxops.Store.Jobs.{get_idempotent_job}
use maxops.Store.Clock.{Clock}
use maxops.Store.Submit.{submit_linked_job}
use maxops.Runner.Observe.{same_text}
use maxops.Hub.Errors.{HubError, api, api_error}
use maxops.Hub.Projection.{call_store}
use maxops.Hub.Access.{App, Principal, DeploymentConfig, deployment_for}
use maxops.Hub.Refresh.{transition_change_state}
use maxops.Hub.World.{World, Fleet, on_db, query, mapped}

pub record RuntimeStateResponse : Type 0 where
  pub host : String
  pub deployment_profile : String
  pub running_closure : Option String
  pub persistent_profile : Option String
  pub generation : Option ℕ
  pub boot_id : Option String

same_number : Option ℕ → Option ℕ → Bool
same_number none none = true
same_number (some a) (some b) = a == b
same_number _ _ = false

unfoldable pub runtime_matches_plan : RuntimeStateResponse → ChangePlan → Bool
unfolding same_number
runtime_matches_plan runtime plan =
    str_eq runtime.host plan.runtime_baseline.host
    && str_eq runtime.deployment_profile plan.runtime_baseline.profile
    && same_text runtime.running_closure plan.runtime_baseline.running_closure
    && same_text runtime.persistent_profile plan.runtime_baseline.persistent_profile
    && same_number runtime.generation plan.runtime_baseline.generation
    && same_text runtime.boot_id plan.runtime_baseline.boot_id

unfoldable pub operation_for_deployment : DeploymentAction → String
operation_for_deployment prepare = "deploy.prepare"
operation_for_deployment build = "deploy.build"
operation_for_deployment activate = "deploy.activate"
operation_for_deployment verify = "deploy.verify"
operation_for_deployment rollback = "deploy.rollback"

-- The states that a stage may start from, and the one that it leads to.
unfoldable pub required : DeploymentAction → ChangeState → Bool
required build ChangeState.prepared = true
required activate ChangeState.ready = true
required verify ChangeState.verifying = true
required rollback ChangeState.verifying = true
required rollback ChangeState.succeeded = true
required _ _ = false

pub record Stage : Type 0 where
  pub next : ChangeState
  pub operation : String
  pub host : String
  pub timeout : ℕ

-- A preparation is no stage of a change.
unfoldable pub stage_of : DeploymentAction → DeploymentConfig → Option Stage
stage_of build deployment = some (record {
  next = ChangeState.building;
  operation = "deploy.build";
  host = deployment.builder_host;
  timeout = 7200;
})
stage_of activate deployment = some (record {
  next = ChangeState.activating;
  operation = "deploy.activate";
  host = deployment.target_host;
  timeout = 900;
})
stage_of verify deployment = some (record {
  next = ChangeState.verifying;
  operation = "deploy.verify";
  host = deployment.target_host;
  timeout = 900;
})
stage_of rollback deployment = some (record {
  next = ChangeState.recovering;
  operation = "deploy.rollback";
  host = deployment.target_host;
  timeout = 900;
})
stage_of prepare deployment = none

pub record StageRequest : Type 0 where
  pub key : String
  pub change_id : ChangeId
  pub expected_revision : ℕ
  pub action : DeploymentAction
  pub workflow : Option JobId

abbrev conflict : String → HubError
conflict message = api (api_error 409 message)

-- `fingerprint`, `clock`, `encode` and `decode_spec` are the hash, the time library and the JSON of
-- a stage; `fresh_id` makes the job's identifier, from the workflow when there is one.
-- `repository_head` and `runtime_state` ask the executors.
module _ {O : Type 0} (fleet : Fleet O) (fingerprint : Value → String) (clock : Clock)
    (encode : DeploymentJobSpec → Value) (decode_spec : Value → Option DeploymentJobSpec)
    (fresh_id : World O → Option JobId → String → JobId)
    (repository_head : ChangePlan → Program (World O) HubError String)
    (runtime_state : DeploymentConfig → Program (World O) HubError RuntimeStateResponse) (app : App)
    (principal : Principal) (refresh : Program (World O) HubError ChangeRecord)
    (request : StageRequest) where
  open fleet use {now}

  spec_matches : JobRecord → Option DeploymentJobSpec → Bool
  spec_matches existing none = false
  spec_matches existing (some spec) =
      str_eq existing.operation (operation_for_deployment request.action)
      && action_eq spec.action request.action
      && str_eq spec.plan.change_id request.change_id

  -- A key that was used is answered with its job, if that is the same request.
  unfoldable pub known_job : JobRecord → Result HubError JobRecord
  unfolding spec_matches
  known_job existing = elim (spec_matches existing (decode_spec existing.spec)) [
    | true ↦ ok existing
    | false ↦ err (conflict "idempotency key belongs to another request")
  ]

  -- The change is refused, and becomes stale.
  unfoldable pub make_stale : ChangeRecord → String → String → Program (World O) HubError (Unit {0})
  make_stale change recovery message =
      on_db fleet (transition_change_state change ChangeState.stale (some recovery)) >>= λ _.
      lift (err (conflict message))

  abbrev pub is_activation : Bool
  is_activation = action_eq request.action activate

  unfoldable pub check_expiry : ChangeRecord → Program (World O) HubError (Unit {0})
  check_expiry change w =
      if ltb (clock.as_second change.plan.expires_at) (clock.as_second (now w)) && is_activation
      then make_stale change "deployment plan expired" "deployment plan expired" w
      else (w, ok tt)

  abbrev pub is_unchanged : ChangeRecord → String → RuntimeStateResponse → Bool
  is_unchanged change commit runtime =
      str_eq commit change.plan.source_remote_head && runtime_matches_plan runtime change.plan

  unfoldable pub compare_baseline :
      ChangeRecord → String → RuntimeStateResponse → Program (World O) HubError (Unit {0})
  compare_baseline change commit runtime w =
      if not (is_unchanged change commit runtime)
      then make_stale change "source or runtime baseline changed before activation"
          "deployment baseline changed" w
      else (w, ok tt)

  unfoldable pub check_baseline :
      ChangeRecord → DeploymentConfig → Program (World O) HubError (Unit {0})
  check_baseline change deployment w =
      if is_activation
      then (repository_head change.plan >>= λ commit.
            runtime_state deployment >>= compare_baseline change commit)
          w
      else (w, ok tt)

  abbrev new_job : ChangeRecord → Stage → Timestamp → NewJob
  new_job change stage deadline = record {
    principal = principal.name;
    host = stage.host;
    operation = stage.operation;
    spec_version = 1;
    spec =
        encode (record { action = request.action; plan = change.plan; artifact = change.artifact });
    policy_version = change.plan.policy_version;
    deadline = some deadline;
  }

  unfoldable pub submit_job :
      ChangeRecord → Stage → Timestamp → Program (World O) HubError JobRecord
  submit_job change stage deadline w =
      let r =
        mapped fleet
          (on_db fleet (λ at db. call_store (
            submit_linked_job fingerprint at request.key
              (fresh_id w request.workflow stage.operation) (new_job change stage deadline)
              (some (record {
                change = change;
                next = stage.next;
                action = some request.action;
                workflow = request.workflow;
              }))
              db)))
          w in
      (r.0, elim r.1 [ ok submitted ↦ ok submitted.job | err e ↦ err e ])

  unfoldable pub submit_checked :
      ChangeRecord → DeploymentConfig → Program (World O) HubError JobRecord
  submit_checked change deployment = do
    stage ← lift (
        ok_or (stage_of request.action deployment) (api (api_error 400 "invalid deployment stage")))
    lift (
        ensure (required request.action change.state)
          (conflict "change is not ready for this stage"))
    check_expiry change
    check_baseline change deployment
    at ← read now
    deadline ←
        lift
          (ok_or (clock.checked_add at stage.timeout) (api (api_error 400 "invalid job deadline")))
    submit_job change stage deadline

  unfoldable pub submit_new : Program (World O) HubError JobRecord
  submit_new = do
    change ← refresh
    lift
        (ensure (change.revision == request.expected_revision) (conflict "change revision changed"))
    deployment ← lift (deployment_for app principal change.plan.deployment_profile)
    submit_checked change deployment

  known_or_new : Option JobRecord → Program (World O) HubError JobRecord
  known_or_new none = submit_new
  known_or_new (some existing) = lift (known_job existing)

  -- The reply is the job whose handle is sent.
  unfoldable pub submit_change_stage_owned : Program (World O) HubError JobRecord
  unfolding known_or_new
  submit_change_stage_owned =
      mapped fleet (query fleet (λ db. get_idempotent_job db principal.name request.key))
      >>= known_or_new
