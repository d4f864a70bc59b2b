-- ===== src/Runner/Correspondence.antt =====
-- Every reply of `main` of crates/maxops-executor/src/bin/maxops-deploy-runner.rs, on every branch.
use maxops.Prelude.{ℕ, true, String, ◌≡◌, refl, subst, inl, inr, Result, ok, err, ok-injective}
use maxops.Prelude.Programs.{Program, continue_with, continue_ind}
use maxops.Proto.Changes.{DeploymentAction, prepare, build, activate, verify, rollback}
use maxops.Proto.Deployments.{DeploymentRunnerSpec, DeploymentReport, verified}
use maxops.Runner.Machine.{Machine}
use maxops.Runner.Actions.{
  verify_stage, rollback_stage, main, stage, prepare_stage, build_stage, with_code, prepared_report,
  built_report, report,
}
use maxops.Runner.Endings.{
  EndsWell, may_end, may_recover-may_end, observed-EndsWell, error-EndsWell, or_recover-EndsWell,
  recover_after_failure-EndsWell, activate_stage-EndsWell,
}

module _ {S : Type 0} (machine : Machine S) (spec : DeploymentRunnerSpec) where
  verify_stage-EndsWell : (s : S) → EndsWell verify (verify_stage machine spec s)
  unfolding verify_stage may_end
  verify_stage-EndsWell s =
      continue_ind (EndsWell verify) _ s _ (λ e h. error-EndsWell machine spec verify s e)
        (λ artifact h.
          or_recover-EndsWell machine spec verify _ _ _ _
            (may_recover-may_end verify (inr (inl refl)))
            (λ t. observed-EndsWell machine spec verify verified _ 0 t refl))

  rollback_stage-EndsWell : (s : S) → EndsWell rollback (rollback_stage machine spec s)
  unfolding rollback_stage
  rollback_stage-EndsWell s =
      recover_after_failure-EndsWell machine spec rollback _ s
        (may_recover-may_end rollback (inr (inr refl)))

  -- What a stage that prepares or builds replies is a good end with the code 0.
  Reports : DeploymentAction → S × Result String DeploymentReport → Type 0
  Reports action x =
      (report : DeploymentReport)
      → x.1 ≡ ok report
      → (report.action ≡ action) × (may_end action report.status 0 ≡ true)

  error-Reports : (action : DeploymentAction) (s : S) (e : String) → Reports action (s, err e)
  unfolding Reports
  error-Reports action s e report q = cc

  one-Reports :
      (action : DeploymentAction) (s : S) (report : DeploymentReport)
      → report.action ≡ action
      → may_end action report.status 0 ≡ true
      → Reports action (s, ok report)
  unfolding Reports
  one-Reports action s report a m report' q =
      let e = ok-injective q in
      subst (λ r. (r.action ≡ action) × (may_end action r.status 0 ≡ true)) e (a, m)

  prepare_stage-Reports : (s : S) → Reports prepare (prepare_stage machine spec s)
  unfolding prepare_stage prepared_report report may_end
  prepare_stage-Reports s =
      continue_ind (Reports prepare) _ _ _ (λ e h. error-Reports prepare _ e)
        (λ digest h.
          continue_ind (Reports prepare) _ _ _ (λ e h. error-Reports prepare _ e)
            (λ drv h.
              continue_ind (Reports prepare) _ _ _ (λ e h. error-Reports prepare _ e)
                (λ u h. one-Reports prepare _ _ refl refl)))

  build_stage-Reports : (s : S) → Reports build (build_stage machine spec s)
  unfolding build_stage built_report report may_end
  build_stage-Reports s =
      let error = λ (t : S) (e : String). error-Reports build t e in
      continue_ind (Reports build) _ _ _ (λ e h. error _ e)
        (λ digest h.
          continue_ind (Reports build) _ _ _ (λ e h. error _ e)
            (λ u h.
              continue_ind (Reports build) _ _ _ (λ e h. error _ e)
                (λ out h.
                  continue_ind (Reports build) _ _ _ (λ e h. error _ e)
                    (λ u h.
                      continue_ind (Reports build) _ _ _ (λ e h. error _ e)
                        (λ drv h.
                          continue_ind (Reports build) _ _ _ (λ e h. error _ e)
                            (λ u h.
                              continue_ind (Reports build) _ _ _ (λ e h. error _ e)
                                (λ u h. one-Reports build _ _ refl refl)))))))

  with_report :
      (action : DeploymentAction) (t : S) (r : Result String DeploymentReport)
      → Reports action (t, r)
      → EndsWell action (continue_with t r (λ report t. (t, ok (report, 0))))
  unfolding continue_with Reports EndsWell
  with_report action t (err e) k report code q = cc
  with_report action t (ok r) k report code q =
      subst (λ p. (p.0.action ≡ action) × (may_end action p.0.status p.1 ≡ true)) (ok-injective q)
        (k r refl)

  with_code-EndsWell :
      (action : DeploymentAction) (m : Program S String DeploymentReport) (s : S)
      → Reports action (m s)
      → EndsWell action (with_code machine spec m s)
  unfolding with_code Reports
  with_code-EndsWell action m s k = with_report action (m s).0 (m s).1 k

  stage-EndsWell :
      (action : DeploymentAction) (s : S) → EndsWell action (stage machine spec action s)
  unfolding stage
  stage-EndsWell prepare s = with_code-EndsWell prepare _ s (prepare_stage-Reports s)
  stage-EndsWell build s = with_code-EndsWell build _ s (build_stage-Reports s)
  stage-EndsWell activate s = activate_stage-EndsWell machine spec s
  stage-EndsWell verify s = verify_stage-EndsWell s
  stage-EndsWell rollback s = rollback_stage-EndsWell s

  -- Whenever the runner replies with a report and an exit code, the report names the action of its
  -- specification, and its status and the code are ones that `may_end` allows for that action.
  pub main-EndsWell :
      (s : S) (report : DeploymentReport) (code : ℕ)
      → (main machine spec s).1 ≡ ok (report, code)
      → (report.action ≡ spec.job.action) × (may_end spec.job.action report.status code ≡ true)
  unfolding main EndsWell
  main-EndsWell s =
      continue_ind (EndsWell spec.job.action) _ s _
        (λ e h. error-EndsWell machine spec spec.job.action s e)
        (λ u h. stage-EndsWell spec.job.action s)
