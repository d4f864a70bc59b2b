-- ===== src/Tests/Stages.antt =====
-- Examples for the hub's stages of a change.
use maxops.Prelude.{
  ℕ, ◌≡◌, ◌∙◌, ◌⊎◌, refl, true, false, String, Option, none, some, [], ◌∷◌, Result, ok, err, str_eq,
  find?, update_where, codes, all_codes,
}
use maxops.Prelude.Programs
use maxops.Prelude.Programs.{Program}
use maxops.Proto.Ids.{JobId}
use maxops.Proto.Json.{Value, null, object, end}
use maxops.Proto.Jobs.{JobRecord}
use maxops.Proto.JobState
use maxops.Proto.JobState.{JobState}
use maxops.Proto.ChangeState
use maxops.Proto.Changes.{ChangePlan, ChangeRecord, DeploymentAction, DeploymentKind, activate}
use maxops.Proto.Deployments.{DeploymentJobSpec}
use maxops.Proto.Names.{bounded, valid_host}
use maxops.Store.Db.{Db}
use maxops.Store.Errors.{transact, to_i64}
use maxops.Store.Canonical.{canonical_json, job_spec_hash}
use maxops.Store.Changes.{link_change}
use maxops.Store.Jobs.{queued_job, find_job, get_job, insert_event, insert_job, validate_new_job}
use maxops.Store.Submit.{submit_linked_job, submit_tx}
use maxops.Runner.Observe.{same_text}
use maxops.Hub.Errors.{HubError, report}
use maxops.Hub.Projection.{call_store}
use maxops.Hub.World.{World, on_db, mapped}
use maxops.Hub.Access.{App, Principal, DeploymentConfig, manage}
use maxops.Hub.Stage.{
  StageRequest, RuntimeStateResponse, runtime_matches_plan, required, stage_of, check_expiry,
  check_baseline, compare_baseline, submit_job, submit_checked,
}
use maxops.Hub.Confirming.{
  transition_change_state-jobs, Failed, IsSubmitted, submit_checked-confirms,
}
use maxops.Hub.Refresh.{transition_change_state}
use maxops.Hub.Workflow.{built, workflow_round}
use maxops.Hub.Stopping.{workflow_round-stops}
use maxops.Tests.Deliveries.{a_clock}
use maxops.Tests.Jobs.{new_job, no_hash}
use maxops.Tests.Links.{change, owned_db, workflow}
use maxops.Tests.Hub.{silent, world}

abbrev cancelling : JobRecord
cancelling = record workflow { cancel_requested = true }

abbrev cancelling_db : Db
cancelling_db = record owned_db { jobs = cancelling ∷ [] }

cancelling_found : find_job cancelling_db "j1" ≡ some cancelling
unfolding find_job find? str_eq
cancelling_found = refl

abbrev refresh : Program (World ℕ) HubError ChangeRecord
refresh w = (w, ok change)

abbrev finish : JobState → Value → Program (World ℕ) HubError (Unit {0})
finish final result w = (w, ok tt)

abbrev refuse : ChangeRecord → DeploymentAction → Program (World ℕ) HubError JobRecord
refuse _ _ w = (w, err (report "refused"))

abbrev accept : ChangeRecord → DeploymentAction → Program (World ℕ) HubError JobRecord
accept _ _ w = (record w { outside = 1 }, ok workflow)

workflow_round-stops_example :
    workflow_round silent
      (λ jobs. null)
      (λ w. false)
      "automation-a"
      "c1"
      built
      refresh
      finish
      refuse
      "j1"
      (world cancelling_db)
    ≡ workflow_round silent
        (λ jobs. null)
        (λ w. false)
        "automation-a"
        "c1"
        built
        refresh
        finish
        accept
        "j1"
        (world cancelling_db)
workflow_round-stops_example =
    workflow_round-stops silent (λ jobs. null) (λ w. false) "automation-a" "c1" built refresh finish
      refuse accept "j1" (world cancelling_db) cancelling cancelling_found refl

abbrev encode : DeploymentJobSpec → Value
encode _ = object end

abbrev decode_spec : Value → Option DeploymentJobSpec
decode_spec _ = none

abbrev fresh_id : World ℕ → Option JobId → String → JobId
fresh_id w parent operation = "j9"

abbrev repository_head : ChangePlan → Program (World ℕ) HubError String
repository_head _ w = (w, ok "s")

abbrev runtime_state : DeploymentConfig → Program (World ℕ) HubError RuntimeStateResponse
runtime_state _ w = (
  w,
  ok (record {
    host = "host-a";
    deployment_profile = "system";
    running_closure = none;
    persistent_profile = none;
    generation = none;
    boot_id = none;
  }),
)

abbrev app : App
app = record { hosts = []; clients = []; repositories = []; deployments = [] }

abbrev principal : Principal
principal = record {
  name = "automation-a";
  hosts = "host-a" ∷ [];
  capabilities = "deploy:manage" ∷ [];
  access = manage;
  repositories = "fleet" ∷ [];
  deployments = "system" ∷ [];
}

abbrev deployment : DeploymentConfig
deployment = record {
  name = "system";
  repository = "fleet";
  builder_host = "builder";
  target_host = "host-a";
  kind = DeploymentKind.system;
  flake_attribute = "host-a";
}

abbrev request : StageRequest
request = record {
  key = "k9";
  change_id = "c1";
  expected_revision = 3;
  action = activate;
  workflow = some "j1";
}

abbrev submission : World ℕ × Result HubError JobRecord
submission =
    submit_checked silent no_hash a_clock encode decode_spec fresh_id repository_head runtime_state
      app principal refresh request change deployment (world owned_db)

abbrev activation : JobRecord
activation =
    queued_job 7 "h" "j9"
      (record new_job { operation = "deploy.activate"; deadline = a_clock.checked_add 7 900 })

submits : submission.1 ≡ ok activation
unfolding submit_checked Programs.continue_with Programs.if◌then◌else◌ stage_of required
    check_expiry check_baseline compare_baseline runtime_matches_plan same_text submit_job mapped
    on_db call_store submit_linked_job submit_tx transact validate_new_job valid_host bounded codes
    all_codes find_job find? str_eq insert_event insert_job get_job canonical_json job_spec_hash
    link_change to_i64 update_where JobState.eq ChangeState.eq ChangeState.can_transition_to
submits = refl

-- The table of jobs is as it was.
abbrev SameJobs : World ℕ → Type 0
SameJobs v = v.db.jobs ≡ owned_db.jobs

stale_keeps :
    (c : ChangeRecord) (recovery : Option String) (v : World ℕ)
    → SameJobs v
    → SameJobs (on_db silent (transition_change_state c ChangeState.stale recovery) v).0
unfolding on_db
stale_keeps c recovery v h = transition_change_state-jobs c ChangeState.stale recovery 7 v.db ∙ h

submit_checked-confirms_example :
    Failed silent no_hash a_clock encode decode_spec fresh_id repository_head runtime_state app
      principal refresh request SameJobs
      (λ plan v h. h)
      (λ d v h. h)
      stale_keeps
      submission
    ⊎ IsSubmitted silent no_hash a_clock encode decode_spec fresh_id repository_head runtime_state
        app principal refresh request change deployment
        (world owned_db)
        submission
submit_checked-confirms_example =
    submit_checked-confirms silent no_hash a_clock encode decode_spec fresh_id repository_head
      runtime_state app principal refresh request SameJobs (λ plan v h. h) (λ d v h. h) stale_keeps
      change deployment (world owned_db) refl refl
