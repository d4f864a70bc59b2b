-- ===== src/Runner/Guarantees.antt =====
-- What the exit codes of crates/maxops-executor/src/bin/maxops-deploy-runner.rs promise.
use maxops.Prelude.{true, String, Option, some, ◌≡◌, ap, ◌∙◌, ◌⊎◌, arith, ok}
use maxops.Proto.Changes.{activate, verify, rollback, DeploymentArtifact}
use maxops.Proto.Deployments.{
  DeploymentRunnerSpec, DeploymentReport, DeploymentReportStatus, activated, verified, rolled_back,
  stale, superseded, recovery_failed, failed, prepared, built, outcome_unknown,
}
use maxops.Runner.Machine.{Machine}
use maxops.Runner.Commands.{run_verification_commands}
use maxops.Runner.Observe.{
  observe, restored_baseline_matches, optional_matches, optional_matches-some, boot_matches,
}
use maxops.Runner.Stages.{verification_attempt}
use maxops.Runner.Verification.{verification_attempt-passed}
use maxops.Runner.Evidence.{Evidence, Accepted}
use maxops.Runner.Truth.{main-IsTrue}
use maxops.Runner.Actions.{main}

links_eq :
    (links : Option String × Option String) (running profile : String)
    → links.0 ≡ some running
    → links.1 ≡ some profile
    → links ≡ (some running, some profile)
links_eq links running profile r p = cc

module _ {S : Type 0} (machine : Machine S) (spec : DeploymentRunnerSpec) where
  restored_by :
      (start end : S) (status : DeploymentReportStatus)
      → Evidence machine spec start end status 24
      → restored_baseline_matches machine spec end
          (observe machine spec end).0
          (observe machine spec end).1
        ≡ true
  unfolding Evidence
  restored_by start end rolled_back (c, h) = h
  restored_by start end activated (c, h) = absurd (omega arith)
  restored_by start end verified (c, h) = absurd (omega arith)
  restored_by start end stale (c, e, h) = absurd (omega arith)
  restored_by start end superseded (c, h) = absurd (omega arith)
  restored_by start end failed (c, h) = absurd (omega arith)
  restored_by start end recovery_failed c = absurd (omega arith)
  restored_by start end prepared h = absurd h
  restored_by start end built h = absurd h
  restored_by start end outcome_unknown h = absurd h

  accepted_by :
      (start end : S) (status : DeploymentReportStatus)
      → Evidence machine spec start end status 0
      → Accepted machine spec end
  unfolding Evidence
  accepted_by start end activated (c, h) = h
  accepted_by start end verified (c, h) = h
  accepted_by start end rolled_back (c, h) = absurd (omega arith)
  accepted_by start end stale (c, e, h) = absurd (omega arith)
  accepted_by start end superseded (c, h) = absurd (omega arith)
  accepted_by start end failed (c, h) = absurd (omega arith)
  accepted_by start end recovery_failed c = absurd (omega arith)
  accepted_by start end prepared h = absurd h
  accepted_by start end built h = absurd h
  accepted_by start end outcome_unknown h = absurd h

  matches_parts :
      (s : S) (running profile : Option String)
      → restored_baseline_matches machine spec s running profile ≡ true
      → (optional_matches spec.job.plan.runtime_baseline.running_closure running ≡ true)
        × (optional_matches spec.job.plan.runtime_baseline.persistent_profile profile ≡ true)
        × (boot_matches machine spec s ≡ true)
  unfolding restored_baseline_matches
  matches_parts s running profile h = ground arith

  -- When the runner exits with 24 from an activation, a verification or a rollback, and the plan
  -- recorded a running closure and a persistent profile, the report and the host at the end have
  -- these two links, and the boot is the recorded one, if one was recorded.
  pub main-restores :
      (s : S) (report : DeploymentReport) (running profile : String)
      → (spec.job.action ≡ activate) ⊎ (spec.job.action ≡ verify) ⊎ (spec.job.action ≡ rollback)
      → spec.job.plan.runtime_baseline.running_closure ≡ some running
      → spec.job.plan.runtime_baseline.persistent_profile ≡ some profile
      → (main machine spec s).1 ≡ ok (report, 24)
      → (report.observed_running ≡ some running)
        × (report.observed_profile ≡ some profile)
        × (observe machine spec (main machine spec s).0 ≡ (some running, some profile))
        × (boot_matches machine spec (main machine spec s).0 ≡ true)
  main-restores s report running profile action r p h =
      let (seen, evidence) = main-IsTrue machine spec s report 24 action h in
      let (mr, mp, boot) = matches_parts _ _ _ (restored_by s _ report.status evidence) in
      let links : observe machine spec (main machine spec s).0 ≡ (some running, some profile) =
        links_eq _ running profile (optional_matches-some _ running _ r mr)
          (optional_matches-some _ profile _ p mp) in
      (ap (λ x. x.0) (seen ∙ links), ap (λ x. x.1) (seen ∙ links), links, boot)

  -- When the runner exits with 0 from an activation or a verification, the specification had an
  -- artifact, and in some state of the host both links were at its path and all the verification
  -- commands, started from there, succeeded, leaving the host as it is at the end.
  pub main-accepts :
      (s : S) (report : DeploymentReport)
      → (spec.job.action ≡ activate) ⊎ (spec.job.action ≡ verify) ⊎ (spec.job.action ≡ rollback)
      → (main machine spec s).1 ≡ ok (report, 0)
      → (artifact : DeploymentArtifact) × (t : S) × (spec.job.artifact ≡ some artifact)
        × (observe machine spec t ≡ (some artifact.out_path, some artifact.out_path))
        × ((run_verification_commands machine spec.verify_commands t).1 ≡ ok tt)
        × ((main machine spec s).0 ≡ (verification_attempt machine spec artifact t).0)
  unfolding Accepted
  main-accepts s report action h =
      let (seen, evidence) = main-IsTrue machine spec s report 0 action h in
      let (artifact, t, has, passed, end) = accepted_by s _ report.status evidence in
      let (links, checks) = verification_attempt-passed machine spec artifact t passed in
      (artifact, t, has, links, checks, end)
