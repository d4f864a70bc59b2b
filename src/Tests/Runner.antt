-- ===== src/Tests/Runner.antt =====
-- Examples for the deploy runner, on a host whose links its programs set.
use maxops.Prelude.{
  ℕ, ◌≡◌, ◌↔◌, inl, refl, ap, Bool, true, false, String, Option, none, some, List, [], ◌∷◌, Result,
  ok, str_eq, codes, all_codes, if◌then◌else◌,
}
use maxops.Prelude.Programs
use maxops.Proto.Changes.{ChangePlan, DeploymentArtifact, activate, rollback}
use maxops.Proto.Deployments.{DeploymentRunnerSpec, DeploymentReport, activated, rolled_back}
use maxops.Runner.Paths.{
  trim, starts_with, is_absolute, is_plain_relative, file_name, parse_u64, generation_of,
  ensure_store_path,
}
use maxops.Runner.Machine.{Machine, Command, Output}
use maxops.Runner.Commands.{
  command_status, run_verification_commands, ensure_command_succeeded, deployment_command,
}
use maxops.Runner.Observe.{
  same_text, optional_matches, observe, artifact, current_is_intended, current_is_owned,
  boot_matches, generation_matches, baseline_matches, restored_baseline_matches, read_boot_id,
  profile_generation,
}
use maxops.Runner.Stages.{
  join, ensure_artifact, set_profile, run_activation, set_and_activate, verification_attempt, pause,
  verify_from, verify_intended,
}
use maxops.Runner.Validation.{validate}
use maxops.Runner.Actions.{
  observed, observed_report, restorable, conclude, restore, recover_after_failure, or_recover,
  check_activation, activate_artifact, activate_stage, rollback_stage, stage, main,
}
use maxops.Runner.Verification.{Passes, verify_intended-Passes}
use maxops.Runner.Evidence.{Evidence}
use maxops.Runner.Truth.{main-IsTrue}
use maxops.Runner.Guarantees.{main-restores, main-accepts}
use maxops.Runner.Ownership.{IsRespectful, recover_after_failure-IsRespectful, main-stale_iff}
use maxops.Tests.Links.{plan}

abbrev pub old_path : String
old_path = "/nix/store/old"

abbrev pub new_path : String
new_path = "/nix/store/new"

-- The links of the host, and whether the check succeeds while the new path runs.
pub record Host : Type 0 where
  pub running : Option String
  pub profile : Option String
  pub healthy : Bool

abbrev pub last_of : String → List String → String
last_of found [] = found
last_of found (s ∷ ss) = last_of s ss

abbrev pub exited : Bool → Result String Output
exited success = ok (record {
  success = success;
  status = "exit status";
  stdout_len = 0;
  stdout = ok "";
  stderr_len = 0;
  stderr = "";
})

abbrev pub start : Command → Host → Host × Result String Output
start c h =
    if str_eq c.program "/bin/nix-env"
    then (record h { profile = some (last_of "" c.arguments) }, exited true)
    else if str_eq c.program "/bin/check"
    then (h, exited h.healthy)
    else if str_eq c.program "/bin/nix"
    then (h, exited true)
    else (record h { running = h.profile }, exited true)

abbrev pub host : Machine Host
host = record {
  start = start;
  sleep = λ n h. h;
  read_link = λ h path. h.running;
  canonicalize = λ h path. h.profile;
  exists = λ h path. true;
  read_text = λ h path. some "boot-1\n";
  read_bytes = λ h path. ok [];
  blake3_hex = λ bytes. "digest";
  now = λ h. 7;
}

abbrev pub recorded : ChangePlan
recorded = record plan {
  runtime_baseline = record (plan.runtime_baseline) {
    running_closure = some old_path;
    persistent_profile = some old_path;
    boot_id = some "boot-1";
  };
}

abbrev pub built : DeploymentArtifact
built = record {
  builder_host = "builder";
  source_commit = "s";
  tree_hash = "t";
  lock_digest = "digest";
  drv_path = "/nix/store/new.drv";
  out_path = new_path;
  built_at = 5;
}

abbrev pub spec : DeploymentRunnerSpec
spec = record {
  job = record { action = activate; plan = recorded; artifact = some built };
  nix = "/bin/nix";
  nix_env = "/bin/nix-env";
  profile_path = "/profile";
  running_link = "/run/current-system";
  activation_program = "bin/switch";
  activation_arguments = [];
  artifact_source = none;
  verify_commands = ("/bin/check" ∷ []) ∷ [];
  verify_attempts = 2;
  verify_interval_seconds = 1;
  automatic_rollback = true;
}

abbrev pub at_baseline : Bool → Host
at_baseline healthy = record { running = some old_path; profile = some old_path; healthy = healthy }

abbrev activated_report : DeploymentReport
activated_report = record {
  action = activate;
  status = activated;
  drv_path = none;
  out_path = none;
  lock_digest = none;
  observed_running = some new_path;
  observed_profile = some new_path;
  detail = "artifact activated and target-local checks passed";
  completed_at = 7;
}

abbrev pub rolled_back_report : DeploymentReport
rolled_back_report = record activated_report {
  status = rolled_back;
  observed_running = some old_path;
  observed_profile = some old_path;
  detail =
      "activation verification failed: target verification command failed; original runtime baseline restored";
}

main_activates : main host spec (at_baseline true) ≡ (
  record { running = some new_path; profile = some new_path; healthy = true },
  ok (activated_report, 0),
)
unfolding main validate stage activate_stage artifact Programs.continue_with Programs.if◌then◌else◌
    observe baseline_matches optional_matches same_text boot_matches generation_matches read_boot_id
    profile_generation activate_artifact ensure_artifact set_and_activate set_profile run_activation
    check_activation verify_intended verify_from verification_attempt pause current_is_intended
    run_verification_commands or_recover observed observed_report recover_after_failure
    current_is_owned restore restorable conclude restored_baseline_matches command_status
    ensure_command_succeeded deployment_command ensure_store_path starts_with is_absolute join
    is_plain_relative trim str_eq codes all_codes rollback_stage
main_activates = refl

pub main_rolls_back :
    main host spec (at_baseline false) ≡ (at_baseline false, ok (rolled_back_report, 24))
unfolding main validate stage activate_stage artifact Programs.continue_with Programs.if◌then◌else◌
    observe baseline_matches optional_matches same_text boot_matches generation_matches read_boot_id
    profile_generation activate_artifact ensure_artifact set_and_activate set_profile run_activation
    check_activation verify_intended verify_from verification_attempt pause current_is_intended
    run_verification_commands or_recover observed observed_report recover_after_failure
    current_is_owned restore restorable conclude restored_baseline_matches command_status
    ensure_command_succeeded deployment_command ensure_store_path starts_with is_absolute join
    is_plain_relative trim str_eq codes all_codes rollback_stage
main_rolls_back = refl

-- A person has switched the host to another path.
abbrev taken : Host
taken = record {
  running = some "/nix/store/other";
  profile = some "/nix/store/other";
  healthy = true;
}

is_stale :
    baseline_matches host spec taken (observe host spec taken).0 (observe host spec taken).1 ≡ false
unfolding main validate stage activate_stage artifact Programs.continue_with Programs.if◌then◌else◌
    observe baseline_matches optional_matches same_text boot_matches generation_matches read_boot_id
    profile_generation activate_artifact ensure_artifact set_and_activate set_profile run_activation
    check_activation verify_intended verify_from verification_attempt pause current_is_intended
    run_verification_commands or_recover observed observed_report recover_after_failure
    current_is_owned restore restorable conclude restored_baseline_matches command_status
    ensure_command_succeeded deployment_command ensure_store_path starts_with is_absolute join
    is_plain_relative trim str_eq codes all_codes rollback_stage
is_stale = refl

is_valid : validate spec ≡ ok tt
unfolding main validate stage activate_stage artifact Programs.continue_with Programs.if◌then◌else◌
    observe baseline_matches optional_matches same_text boot_matches generation_matches read_boot_id
    profile_generation activate_artifact ensure_artifact set_and_activate set_profile run_activation
    check_activation verify_intended verify_from verification_attempt pause current_is_intended
    run_verification_commands or_recover observed observed_report recover_after_failure
    current_is_owned restore restorable conclude restored_baseline_matches command_status
    ensure_command_succeeded deployment_command ensure_store_path starts_with is_absolute join
    is_plain_relative trim str_eq codes all_codes rollback_stage
is_valid = refl

generation_example : generation_of (some "system-42-link") ≡ some 42
unfolding generation_of file_name parse_u64 codes starts_with
generation_example = refl

main-IsTrue_example :
    ((rolled_back_report.observed_running, rolled_back_report.observed_profile)
      ≡ observe host spec (main host spec (at_baseline false)).0)
    × Evidence host spec (at_baseline false) (main host spec (at_baseline false)).0 rolled_back 24
main-IsTrue_example =
    main-IsTrue host spec (at_baseline false) rolled_back_report 24 (inl refl)
      (ap (λ x. x.1) main_rolls_back)

main-restores_example :
    (rolled_back_report.observed_running ≡ some old_path)
    × (rolled_back_report.observed_profile ≡ some old_path)
    × (observe host spec (main host spec (at_baseline false)).0 ≡ (some old_path, some old_path))
    × (boot_matches host spec (main host spec (at_baseline false)).0 ≡ true)
main-restores_example =
    main-restores host spec (at_baseline false) rolled_back_report old_path old_path (inl refl) refl
      refl (ap (λ x. x.1) main_rolls_back)

main-accepts_example :
    (a : DeploymentArtifact) × (t : Host) × (some built ≡ some a)
    × (observe host spec t ≡ (some a.out_path, some a.out_path))
    × ((run_verification_commands host spec.verify_commands t).1 ≡ ok tt)
    × ((main host spec (at_baseline true)).0 ≡ (verification_attempt host spec a t).0)
main-accepts_example =
    main-accepts host spec (at_baseline true) activated_report (inl refl)
      (ap (λ x. x.1) main_activates)

main-stale_iff_example :
    ((report : DeploymentReport) × (main host spec taken ≡ (taken, ok (report, 20)))) ↔ (
      baseline_matches host spec taken (observe host spec taken).0 (observe host spec taken).1
      ≡ false)
main-stale_iff_example = main-stale_iff host spec taken built is_valid refl refl

recover_after_failure-IsRespectful_example :
    IsRespectful host spec rollback taken
      (recover_after_failure host spec rollback "rollback requested" taken).0
recover_after_failure-IsRespectful_example =
    recover_after_failure-IsRespectful host spec rollback "rollback requested" taken

verify_intended-Passes_example :
    ((verify_intended host spec built taken).1 ≡ ok tt)
    ↔ ((i : ℕ) × Passes host spec built 2 i taken)
verify_intended-Passes_example = verify_intended-Passes host spec built taken
