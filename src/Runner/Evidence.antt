-- ===== src/Runner/Evidence.antt =====
-- What the status of a report says of the host, for the stages on the target of
-- crates/maxops-executor/src/bin/maxops-deploy-runner.rs.
use maxops.Prelude.{ℕ, true, false, String, some, ◌≡◌, refl, Result, ok, err, subst, ok-injective}
use maxops.Proto.Changes.{DeploymentAction, DeploymentArtifact}
use maxops.Proto.Deployments.{
  DeploymentRunnerSpec, DeploymentReport, DeploymentReportStatus, activated, verified, rolled_back,
  stale, superseded, recovery_failed, failed,
}
use maxops.Runner.Machine.{Machine}
use maxops.Runner.Observe.{observe, current_is_owned, restored_baseline_matches, baseline_matches}
use maxops.Runner.Stages.{verification_attempt}
use maxops.Runner.Actions.{observed, observed_report}

module _ {S : Type 0} (machine : Machine S) (spec : DeploymentRunnerSpec) where
  -- An attempt to verify the artifact of the specification passed and left the host in this state.
  unfoldable pub Accepted : S → Type 0
  Accepted end =
      (artifact : DeploymentArtifact) × (t : S) × (spec.job.artifact ≡ some artifact)
      × ((verification_attempt machine spec artifact t).1 ≡ ok tt)
      × (end ≡ (verification_attempt machine spec artifact t).0)

  -- The links do not belong to the artifact of the specification.
  unfoldable pub Lost : S → Type 0
  Lost end =
      (artifact : DeploymentArtifact) × (spec.job.artifact ≡ some artifact)
      × (current_is_owned artifact spec.job.plan.runtime_baseline.running_closure
            (observe machine spec end).0 (observe machine spec end).1
          ≡ false)

  -- What a status and an exit code say of the states at the start and at the end.
  unfoldable pub Evidence : S → S → DeploymentReportStatus → ℕ → Type 0
  Evidence start end activated code = (code ≡ 0) × Accepted end
  Evidence start end verified code = (code ≡ 0) × Accepted end
  Evidence start end stale code =
      (code ≡ 20)
      × (end ≡ start)
      × (baseline_matches machine spec start (observe machine spec start).0
            (observe machine spec start).1
          ≡ false)
  Evidence start end superseded code = (code ≡ 21) × Lost end
  Evidence start end failed code = (code ≡ 22) × (spec.automatic_rollback ≡ false)
  Evidence start end recovery_failed code = code ≡ 23
  Evidence start end rolled_back code =
      (code ≡ 24)
      × (restored_baseline_matches machine spec end (observe machine spec end).0
            (observe machine spec end).1
          ≡ true)
  Evidence start end status code = ⊥

  -- A reply reports the links as they are at the end, and there is evidence for its status.
  unfoldable pub IsTrue : S → S × Result String (DeploymentReport × ℕ) → Type 0
  IsTrue start x =
      (report : DeploymentReport) (code : ℕ)
      → x.1 ≡ ok (report, code)
      → ((report.observed_running, report.observed_profile) ≡ observe machine spec x.0)
        × Evidence start x.0 report.status code

  pub error-IsTrue : (start s : S) (e : String) → IsTrue start (s, err e)
  unfolding IsTrue
  error-IsTrue start s e report code q = cc

  pub observed-IsTrue :
      (start s : S) (action : DeploymentAction) (status : DeploymentReportStatus) (detail : String)
      (code : ℕ)
      → Evidence start s status code
      → IsTrue start (observed machine spec action status detail code s)
  unfolding observed observed_report IsTrue
  observed-IsTrue start s action status detail code k report code' q =
      subst
        (λ p.
          ((p.0.observed_running, p.0.observed_profile) ≡ observe machine spec s)
          × Evidence start s p.0.status p.1)
        (ok-injective q) (refl, k)
