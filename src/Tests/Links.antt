-- ===== src/Tests/Links.antt =====
-- Examples for the links of jobs to changes.
use maxops.Prelude.{
  ℕ, err, count_where, update_where, ◌≡◌, refl, true, false, none, some, [], ◌∷◌, ok, is_ok, str_eq,
  find?, update_where,
}
use maxops.Proto.Jobs.{JobRecord}
use maxops.Proto.JobState
use maxops.Proto.ChangeState
use maxops.Proto.Changes.{ChangePlan, ChangeRecord, DeploymentAction, DeploymentKind, no_jobs}
use maxops.Store.Db.{Db, ChangeRow}
use maxops.Store.Errors.{next_revision, change_revision_changed, transact, to_i64}
use maxops.Store.History.{no_rows}
use maxops.Store.Jobs.{has_key, queued_job, find_job}
use maxops.Store.Changes.{
  ChangeTransition, transition_change, transition_change_tx, get_change, find_change, ChangeJobLink,
  is_owned, may_become, is_released,
}
use maxops.Store.Changes.Stale.{transition_change-excludes}
use maxops.Store.Submit.{submit_linked_job}
use maxops.Store.Submit.Linking.{submit_linked_job-owned}
use maxops.Tests.Jobs.{new_job, no_hash}

abbrev pub plan : ChangePlan
plan = record {
  change_id = "c1";
  repository = "fleet";
  workspace_id = "w1";
  workspace_revision = 1;
  tree_hash = "t";
  source_commit = "s";
  source_reference = "main";
  source_remote_head = "s";
  target_host = "host-a";
  deployment_profile = "system";
  kind = DeploymentKind.system;
  flake_attribute = "host-a";
  drv_path = none;
  lock_digest = none;
  source_baseline = record {
    repository_id = "fleet";
    reference = "main";
    commit = none;
    observed_at = 1;
    evidence = "hub";
  };
  runtime_baseline = record {
    host = "host-a";
    profile = "system";
    running_closure = none;
    persistent_profile = none;
    generation = none;
    boot_id = none;
    source_commit = none;
    observed_at = 1;
    evidence = "agent";
  };
  policy_version = "policy-1";
  created_at = 1;
  expires_at = 100;
}

abbrev pub change : ChangeRecord
change = record {
  plan = plan;
  creator = "automation-a";
  revision = 3;
  state = ChangeState.ready;
  artifact = none;
  jobs = no_jobs;
  recovery_state = none;
  updated_at = 2;
}

abbrev pub owned_row : ChangeRow
owned_row = record {
  id = "c1";
  host = "host-a";
  change = change;
  created_at = 1;
  workflow_job_id = some "j1";
}

abbrev pub workflow : JobRecord
workflow = record (queued_job 1 "h" "j1" new_job) {
  handle = record (queued_job 1 "h" "j1" new_job).handle { state = JobState.running };
}

abbrev pub owned_db : Db
owned_db = record no_rows { jobs = workflow ∷ []; changes = owned_row ∷ [] }

abbrev intruder : ChangeJobLink
intruder = record {
  change = change;
  next = ChangeState.activating;
  action = some DeploymentAction.activate;
  workflow = none;
}

abbrev stage : ChangeJobLink
stage = record intruder { workflow = some "j1" }

row_found : find? (is_owned "c1" "automation-a") owned_db.changes ≡ some owned_row
unfolding find? str_eq
row_found = refl

owner_found : find_job owned_db "j1" ≡ some workflow
unfolding find_job find? str_eq
owner_found = refl

key_unused : find? (has_key "automation-a" "k9") owned_db.idempotency ≡ none
unfolding find?
key_unused = refl

running_is_kept : is_released (some workflow) ≡ false
unfolding JobState.is_terminal
running_is_kept = refl

submit_linked_job-owned_example :
    ((submit_linked_job no_hash 5 "k9" "j9" new_job (some intruder) owned_db).0 ≡ owned_db)
    × (is_ok (submit_linked_job no_hash 5 "k9" "j9" new_job (some intruder) owned_db).1 ≡ false)
submit_linked_job-owned_example =
    submit_linked_job-owned no_hash 5 "k9" "j9" new_job intruder owned_db key_unused row_found refl
      owner_found running_is_kept refl

abbrev step : ChangeTransition
step = record {
  expected_revision = 3;
  next = ChangeState.activating;
  plan = plan;
  artifact = none;
  jobs = no_jobs;
  recovery_state = none;
}

stepped :
    (transition_change 7 "c1" "automation-a" step owned_db).1
    ≡ ok (record change { revision = 4; state = ChangeState.activating; updated_at = 7 })
unfolding transition_change transition_change_tx transact get_change find_change find? str_eq to_i64
    next_revision update_where count_where ChangeState.eq ChangeState.can_transition_to
stepped = refl

abbrev after_step : Db
after_step = (transition_change 7 "c1" "automation-a" step owned_db).0

transition_change-excludes_example :
    ((row : ChangeRow) × (find? (is_owned "c1" "automation-a") owned_db.changes ≡ some row)
      × (may_become row.state ChangeState.activating ≡ true))
    × ((at' : ℕ) (other : ChangeTransition)
        → other.expected_revision ≡ 3
        → transition_change at' "c1" "automation-a" other after_step
          ≡ (after_step, err change_revision_changed))
transition_change-excludes_example =
    transition_change-excludes 7 "c1" "automation-a" step owned_db stepped
