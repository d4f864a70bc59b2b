-- ===== src/Runner/Actions.antt =====
-- The stages of crates/maxops-executor/src/bin/maxops-deploy-runner.rs: `prepare`, `build`,
-- `activate`, `verify`, `rollback`, `recover_after_failure` and `main`. A result is the report and
-- the exit code.
use Prim.Native.String.{◌++◌}
use maxops.Prelude.{
  ℕ, not, ◌&&◌, String, Option, none, some, [], ◌∷◌, Result, ok, err, ensure, ok_or,
}
use maxops.Prelude.Programs.{Program, ◌>>=◌, ◌>>◌, lift, read, if◌then◌else◌}
use maxops.Proto.Changes.{
  DeploymentArtifact, DeploymentAction, prepare, build, activate, verify, rollback,
}
use maxops.Proto.Deployments.{
  DeploymentRunnerSpec, DeploymentReport, DeploymentReportStatus, action_eq,
}
use maxops.Proto.Jobs.{Timestamp}
use maxops.Runner.Paths.{ensure_store_path}
use maxops.Runner.Machine.{Machine}
use maxops.Runner.Validation.{validate}
use maxops.Runner.Commands.{command_text, lock_digest}
use maxops.Runner.Observe.{
  observe, baseline_matches, restored_baseline_matches, current_is_owned, artifact, same_text,
}
use maxops.Runner.Stages.{ensure_artifact, set_and_activate, verify_intended}

unfoldable pub report :
    DeploymentAction
    → DeploymentReportStatus
    → Option String
    → Option String
    → Option String
    → String
    → Timestamp
    → DeploymentReport
report action status drv_path out_path lock_digest detail now = record {
  action = action;
  status = status;
  drv_path = drv_path;
  out_path = out_path;
  lock_digest = lock_digest;
  observed_running = none;
  observed_profile = none;
  detail = detail;
  completed_at = now;
}

unfoldable pub observed_report :
    DeploymentAction
    → DeploymentReportStatus
    → Option String × Option String
    → String
    → Timestamp
    → DeploymentReport
observed_report action status seen detail now = record {
  action = action;
  status = status;
  drv_path = none;
  out_path = none;
  lock_digest = none;
  observed_running = seen.0;
  observed_profile = seen.1;
  detail = detail;
  completed_at = now;
}

module _ {S : Type 0} (machine : Machine S) (spec : DeploymentRunnerSpec) where
  open machine use {now}

  abbrev pub Ending : Type 0
  Ending = DeploymentReport × ℕ

  unfoldable pub prepared_report : String → String → S → DeploymentReport
  prepared_report drv_path digest s =
      report prepare DeploymentReportStatus.prepared (some drv_path) none (some digest)
        "prepared exact derivation and lock digest" (now s)

  unfoldable pub prepare_stage : Program S String DeploymentReport
  prepare_stage = do
    digest ← (λ s. (s, lock_digest machine s))
    drv_path ←
        command_text machine spec.nix
          ("eval" ∷ "--raw" ∷ (".#" ++ spec.job.plan.flake_attribute ++ ".drvPath") ∷ [])
    lift (ensure_store_path drv_path)
    read (prepared_report drv_path digest)

  unfoldable pub built_report : String → String → String → S → DeploymentReport
  built_report drv_path out_path digest s =
      report build DeploymentReportStatus.built (some drv_path) (some out_path) (some digest)
        "built exact prepared derivation" (now s)

  unfoldable pub build_stage : Program S String DeploymentReport
  build_stage = do
    digest ← (λ s. (s, lock_digest machine s))
    lift (
        ensure (same_text spec.job.plan.lock_digest (some digest))
          "workspace lock digest changed after preparation")
    out_path ←
        command_text machine spec.nix (
          "build"
          ∷ "--no-link"
          ∷ "--print-out-paths"
          ∷ (".#" ++ spec.job.plan.flake_attribute)
          ∷ [])
    lift (ensure_store_path out_path)
    drv_path ← command_text machine spec.nix ("path-info" ∷ "--derivation" ∷ out_path ∷ [])
    lift (ensure_store_path drv_path)
    lift (
        ensure (same_text spec.job.plan.drv_path (some drv_path))
          "built derivation differs from prepared plan")
    read (built_report drv_path out_path digest)

  -- The host is observed, and the observation is reported with a status and a code.
  unfoldable pub observed :
      DeploymentAction → DeploymentReportStatus → String → ℕ → Program S String Ending
  observed action status detail code s =
      (s, ok (observed_report action status (observe machine spec s) detail (now s), code))

  -- `persistent_profile.or(running_closure)`
  unfoldable pub restorable : Result String String
  restorable = elim spec.job.plan.runtime_baseline.persistent_profile [
    | some path ↦ ok path
    | none ↦
        ok_or spec.job.plan.runtime_baseline.running_closure
          "plan has no restorable runtime baseline"
  ]

  -- The end of a recovery, after `set_and_activate`.
  unfoldable pub conclude :
      DeploymentAction → String → Result String (Unit {0}) → Program S String Ending
  conclude action failure (err e) s =
      observed action DeploymentReportStatus.recovery_failed (failure ++ "; recovery failed: " ++ e)
        23 s
  conclude action failure (ok u) s =
      let seen = observe machine spec s in
      if not (restored_baseline_matches machine spec s seen.0 seen.1)
      then observed action DeploymentReportStatus.recovery_failed
          (failure ++ "; recovery completed but baseline was not restored") 23 s
      else observed action DeploymentReportStatus.rolled_back
          (failure ++ "; original runtime baseline restored") 24 s

  -- The part of a recovery that changes the host.
  unfoldable pub restore : DeploymentAction → String → Program S String Ending
  restore action failure = lift restorable >>= λ baseline.
      λ s. let r = set_and_activate machine spec baseline s in conclude action failure r.1 r.0

  unfoldable pub recover_after_failure : DeploymentAction → String → Program S String Ending
  recover_after_failure action failure = lift (artifact spec) >>= λ artifact. λ s.
      let seen = observe machine spec s in
      if not
        (current_is_owned artifact spec.job.plan.runtime_baseline.running_closure seen.0 seen.1)
      then observed action DeploymentReportStatus.superseded
          (failure ++ "; a different runtime state now owns the host") 21 s
      else if not spec.automatic_rollback && not (action_eq action rollback)
      then observed action DeploymentReportStatus.failed
          (failure ++ "; automatic rollback is disabled") 22 s
      else restore action failure s

  -- A stage that continues, or recovers with the error after a prefix.
  unfoldable pub or_recover :
      DeploymentAction
      → String
      → Result String (Unit {0})
      → Program S String Ending
      → Program S String Ending
  or_recover action prefix (ok u) rest s = rest s
  or_recover action prefix (err e) rest s = recover_after_failure action (prefix ++ e) s

  -- `activate` after `set_and_activate`.
  unfoldable pub check_activation : DeploymentArtifact → Program S String Ending
  check_activation artifact s =
      let r = verify_intended machine spec artifact s in
      or_recover activate "activation verification failed: " r.1
        (observed activate DeploymentReportStatus.activated
          "artifact activated and target-local checks passed" 0)
        r.0

  unfoldable pub activate_artifact : DeploymentArtifact → Program S String Ending
  activate_artifact artifact = ensure_artifact machine spec artifact >> λ s.
      let r = set_and_activate machine spec artifact.out_path s in
      or_recover activate "activation failed: " r.1 (check_activation artifact) r.0

  unfoldable pub activate_stage : Program S String Ending
  activate_stage = lift (artifact spec) >>= λ artifact. λ s.
      let seen = observe machine spec s in
      if not (baseline_matches machine spec s seen.0 seen.1)
      then observed activate DeploymentReportStatus.stale
          "runtime baseline changed before activation" 20 s
      else activate_artifact artifact s

  unfoldable pub verify_stage : Program S String Ending
  verify_stage = lift (artifact spec) >>= λ artifact. λ s.
      let r = verify_intended machine spec artifact s in
      or_recover verify "acceptance failed: " r.1
        (observed verify DeploymentReportStatus.verified
          "activated artifact passed target acceptance" 0)
        r.0

  unfoldable pub rollback_stage : Program S String Ending
  rollback_stage = recover_after_failure rollback "rollback requested"

  unfoldable pub with_code : Program S String DeploymentReport → Program S String Ending
  with_code m = m >>= λ report. lift (ok (report, 0))

  unfoldable pub stage : DeploymentAction → Program S String Ending
  stage prepare = with_code prepare_stage
  stage build = with_code build_stage
  stage activate = activate_stage
  stage verify = verify_stage
  stage rollback = rollback_stage

  -- `main`, from the specification that it has read.
  unfoldable pub main : Program S String Ending
  main = lift (validate spec) >> stage spec.job.action
