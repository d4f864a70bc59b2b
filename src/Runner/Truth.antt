-- ===== src/Runner/Truth.antt =====
-- Every reply of the stages on the target of
-- crates/maxops-executor/src/bin/maxops-deploy-runner.rs has evidence for its status.
use maxops.Prelude.{
  ℕ, Bool, true, false, not, ◌&&◌, String, some, ◌≡◌, refl, ◌⊎◌, arith, Result, ok, err,
  of_not-true, of_not-false,
}
use maxops.Prelude.Programs.{Program, continue_ind, choice_ind}
use maxops.Proto.Changes.{DeploymentAction, activate, verify, rollback, DeploymentArtifact}
use maxops.Proto.Deployments.{
  DeploymentRunnerSpec, DeploymentReport, activated, verified, rolled_back, stale, superseded,
  recovery_failed, failed,
}
use maxops.Runner.Machine.{Machine}
use maxops.Runner.Observe.{artifact, observe}
use maxops.Runner.Stages.{verify_intended}
use maxops.Runner.Verification.{verify_intended-ends}
use maxops.Runner.Evidence.{Evidence, Accepted, Lost, IsTrue, error-IsTrue, observed-IsTrue}
use maxops.Runner.Actions.{
  conclude, restore, recover_after_failure, or_recover, check_activation, activate_artifact,
  activate_stage, verify_stage, rollback_stage, stage, main,
}

pub artifact-ok :
    (spec : DeploymentRunnerSpec) (a : DeploymentArtifact)
    → artifact spec ≡ ok a
    → spec.job.artifact ≡ some a
unfolding artifact
artifact-ok spec a h = ground arith

not_automatic : (automatic other : Bool) → (not automatic && other) ≡ true → automatic ≡ false
not_automatic true other h = cc
not_automatic false other h = refl

module _ {S : Type 0} (machine : Machine S) (spec : DeploymentRunnerSpec) (start : S) where
  conclude-IsTrue :
      (action : DeploymentAction) (failure : String) (r : Result String (Unit {0})) (s : S)
      → IsTrue machine spec start (conclude machine spec action failure r s)
  unfolding conclude Evidence
  conclude-IsTrue action failure (err e) s =
      observed-IsTrue machine spec start s action recovery_failed _ 23 refl
  conclude-IsTrue action failure (ok u) s =
      choice_ind (IsTrue machine spec start) _
        (λ no. observed-IsTrue machine spec start s action recovery_failed _ 23 refl)
        (λ yes.
          observed-IsTrue machine spec start s action rolled_back _ 24 (refl, of_not-false _ yes))

  recover_after_failure-IsTrue :
      (action : DeploymentAction) (failure : String) (s : S)
      → IsTrue machine spec start (recover_after_failure machine spec action failure s)
  unfolding recover_after_failure restore Evidence Lost
  recover_after_failure-IsTrue action failure s =
      continue_ind (IsTrue machine spec start) _ s _ (λ e h. error-IsTrue machine spec start s e)
        (λ a h.
          choice_ind (IsTrue machine spec start) _
            (λ lost.
              observed-IsTrue machine spec start s action superseded _ 21
                (refl, (a, artifact-ok spec a h, of_not-true _ lost)))
            (λ owned.
              choice_ind (IsTrue machine spec start) _
                (λ off.
                  observed-IsTrue machine spec start s action failed _ 22
                    (refl, not_automatic _ _ off))
                (λ on.
                  continue_ind (IsTrue machine spec start) _ s _
                    (λ e h. error-IsTrue machine spec start s e)
                    (λ baseline h. conclude-IsTrue action _ _ _))))

  or_recover-IsTrue :
      (action : DeploymentAction) (prefix : String) (r : Result String (Unit {0}))
      (rest : Program S String (DeploymentReport × ℕ)) (s : S)
      → (r ≡ ok tt → IsTrue machine spec start (rest s))
      → IsTrue machine spec start (or_recover machine spec action prefix r rest s)
  unfolding or_recover
  or_recover-IsTrue action prefix (ok u) rest s h = h refl
  or_recover-IsTrue action prefix (err e) rest s h = recover_after_failure-IsTrue action _ s

  accepted :
      (a : DeploymentArtifact) (s : S)
      → spec.job.artifact ≡ some a
      → (verify_intended machine spec a s).1 ≡ ok tt
      → Accepted machine spec (verify_intended machine spec a s).0
  unfolding Accepted
  accepted a s h q =
      let (t, passed, ends) = verify_intended-ends machine spec a s q in (a, t, h, passed, ends)

  check_activation-IsTrue :
      (a : DeploymentArtifact) (s : S)
      → spec.job.artifact ≡ some a
      → IsTrue machine spec start (check_activation machine spec a s)
  unfolding check_activation Evidence
  check_activation-IsTrue a s h =
      or_recover-IsTrue activate _ _ _ _
        (λ q. observed-IsTrue machine spec start _ activate activated _ 0 (refl, accepted a s h q))

  verify_stage-IsTrue : (s : S) → IsTrue machine spec start (verify_stage machine spec s)
  unfolding verify_stage Evidence
  verify_stage-IsTrue s =
      continue_ind (IsTrue machine spec start) _ s _ (λ e h. error-IsTrue machine spec start s e)
        (λ a h. or_recover-IsTrue verify _ _ _ _ (λ q.
          observed-IsTrue machine spec start _ verify verified _ 0
            (refl, accepted a s (artifact-ok spec a h) q)))

  activate_artifact-IsTrue :
      (a : DeploymentArtifact) (s : S)
      → spec.job.artifact ≡ some a
      → IsTrue machine spec start (activate_artifact machine spec a s)
  unfolding activate_artifact
  activate_artifact-IsTrue a s h =
      continue_ind (IsTrue machine spec start) _ _ _ (λ e h. error-IsTrue machine spec start _ e)
        (λ u k. or_recover-IsTrue activate _ _ _ _ (λ q. check_activation-IsTrue a _ h))

module _ {S : Type 0} (machine : Machine S) (spec : DeploymentRunnerSpec) (s : S) where
  activate_stage-IsTrue : IsTrue machine spec s (activate_stage machine spec s)
  unfolding activate_stage Evidence
  activate_stage-IsTrue =
      continue_ind (IsTrue machine spec s) _ s _ (λ e h. error-IsTrue machine spec s s e)
        (λ a h.
          choice_ind (IsTrue machine spec s) _
            (λ changed.
              observed-IsTrue machine spec s s activate stale _ 20
                (refl, refl, of_not-true _ changed))
            (λ same. activate_artifact-IsTrue machine spec s a s (artifact-ok spec a h)))

  pub stage-IsTrue :
      (action : DeploymentAction)
      → (action ≡ activate) ⊎ (action ≡ verify) ⊎ (action ≡ rollback)
      → IsTrue machine spec s (stage machine spec action s)
  unfolding stage rollback_stage
  stage-IsTrue activate h = activate_stage-IsTrue
  stage-IsTrue verify h = verify_stage-IsTrue machine spec s s
  stage-IsTrue rollback h = recover_after_failure-IsTrue machine spec s rollback _ s
  stage-IsTrue DeploymentAction.prepare h = ground arith
  stage-IsTrue DeploymentAction.build h = ground arith

  -- Whenever the runner replies for an activation, a verification or a rollback, the links in the
  -- report are those of the host at the end, and there is evidence for the status and exit code.
  pub main-IsTrue :
      (report : DeploymentReport) (code : ℕ)
      → (spec.job.action ≡ activate) ⊎ (spec.job.action ≡ verify) ⊎ (spec.job.action ≡ rollback)
      → (main machine spec s).1 ≡ ok (report, code)
      → ((report.observed_running, report.observed_profile)
          ≡ observe machine spec (main machine spec s).0)
        × Evidence machine spec s (main machine spec s).0 report.status code
  unfolding main IsTrue
  main-IsTrue report code h =
      let whole : IsTrue machine spec s (main machine spec s) =
        continue_ind (IsTrue machine spec s) _ s _ (λ e h. error-IsTrue machine spec s s e)
          (λ u k. stage-IsTrue spec.job.action h) in
      whole report code
