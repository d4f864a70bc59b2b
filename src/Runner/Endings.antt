-- ===== src/Runner/Endings.antt =====
-- Which reports and exit codes the stages of
-- crates/maxops-executor/src/bin/maxops-deploy-runner.rs end with.
use maxops.Prelude.{
  ℕ, Bool, true, false, not, ◌&&◌, ◌==◌, String, ◌≡◌, refl, sym, ap, ◌⊎◌, inl, arith, Result, ok,
  err, subst, ok-injective,
}
use maxops.Prelude.Programs.{Program, continue_ind, choice_ind}
use maxops.Proto.Changes.{
  DeploymentAction, prepare, build, activate, verify, rollback, DeploymentArtifact,
}
use maxops.Proto.Deployments.{
  DeploymentRunnerSpec, DeploymentReport, DeploymentReportStatus, action_eq, prepared, built,
  activated, verified, rolled_back, stale, superseded, recovery_failed, failed,
}
use maxops.Runner.Machine.{Machine}
use maxops.Runner.Observe.{artifact}
use maxops.Runner.Actions.{
  observed, observed_report, conclude, restore, recover_after_failure, or_recover, check_activation,
  activate_artifact, activate_stage,
}

-- The statuses and codes that a recovery may end with.
unfoldable pub may_recover : DeploymentAction → DeploymentReportStatus → ℕ → Bool
may_recover action superseded code = code == 21
may_recover action failed code = code == 22 && not (action_eq action rollback)
may_recover action recovery_failed code = code == 23
may_recover action rolled_back code = code == 24
may_recover action status code = false

-- The statuses and codes that a stage may end with.
unfoldable pub may_end : DeploymentAction → DeploymentReportStatus → ℕ → Bool
unfolding may_recover
may_end prepare prepared code = code == 0
may_end build built code = code == 0
may_end activate activated code = code == 0
may_end activate stale code = code == 20
may_end activate status code = may_recover activate status code
may_end verify verified code = code == 0
may_end verify status code = may_recover verify status code
may_end rollback status code = may_recover rollback status code
may_end _ _ _ = false

-- A reply, when there is one, reports the action with a status and a code that it may end with.
unfoldable pub EndsWell :
    {S : Type 0} → DeploymentAction → S × Result String (DeploymentReport × ℕ) → Type 0
EndsWell action x =
    (report : DeploymentReport) (code : ℕ)
    → x.1 ≡ ok (report, code)
    → (report.action ≡ action) × (may_end action report.status code ≡ true)

failed_without_rollback :
    (automatic : Bool) (action : DeploymentAction)
    → (automatic && not (action_eq action rollback)) ≡ true
    → may_recover action failed 22 ≡ true
unfolding may_recover
failed_without_rollback true action h = h
failed_without_rollback false action h = cc

pub may_recover-may_end :
    (action : DeploymentAction)
    → (action_eq action activate ≡ true)
      ⊎ (action_eq action verify ≡ true)
      ⊎ (action_eq action rollback ≡ true)
    → (status : DeploymentReportStatus) (code : ℕ) → may_recover action status code ≡ true
    → may_end action status code ≡ true
unfolding may_end may_recover
may_recover-may_end action k status code h = ground arith

module _ {S : Type 0} (machine : Machine S) (spec : DeploymentRunnerSpec) where
  pub observed-EndsWell :
      (action : DeploymentAction) (status : DeploymentReportStatus) (detail : String) (code : ℕ)
      (s : S)
      → may_end action status code ≡ true
      → EndsWell action (observed machine spec action status detail code s)
  unfolding observed observed_report EndsWell
  observed-EndsWell action status detail code s m report' code' h =
      let e = ok-injective h in
      (ap (λ p. p.0.action) (sym e), subst (λ p. may_end action p.0.status p.1 ≡ true) e m)

  pub error-EndsWell : (action : DeploymentAction) (s : S) (e : String) → EndsWell action (s, err e)
  unfolding EndsWell
  error-EndsWell action s e report code q = cc

  conclude-EndsWell :
      (action : DeploymentAction) (failure : String) (r : Result String (Unit {0})) (s : S)
      → may_end action recovery_failed 23 ≡ true
      → may_end action rolled_back 24 ≡ true
      → EndsWell action (conclude machine spec action failure r s)
  unfolding conclude
  conclude-EndsWell action failure (err e) s b c = observed-EndsWell action _ _ 23 s b
  conclude-EndsWell action failure (ok u) s b c =
      choice_ind (EndsWell action) _ (λ _. observed-EndsWell action _ _ 23 s b)
        (λ _. observed-EndsWell action _ _ 24 s c)

  pub recover_after_failure-EndsWell :
      (action : DeploymentAction) (failure : String) (s : S)
      → ((status : DeploymentReportStatus) (code : ℕ)
          → may_recover action status code ≡ true
          → may_end action status code ≡ true)
      → EndsWell action (recover_after_failure machine spec action failure s)
  unfolding recover_after_failure restore may_recover
  recover_after_failure-EndsWell action failure s may =
      continue_ind (EndsWell action) _ s _ (λ e h. error-EndsWell action s e)
        (λ a h.
          choice_ind (EndsWell action) _
            (λ lost. observed-EndsWell action _ _ 21 s (may superseded 21 refl))
            (λ owned.
              choice_ind (EndsWell action) _
                (λ off.
                  observed-EndsWell action _ _ 22 s
                    (may failed 22 (failed_without_rollback _ action off)))
                (λ on.
                  continue_ind (EndsWell action) _ s _ (λ e h. error-EndsWell action s e)
                    (λ baseline h.
                      conclude-EndsWell action _ _ _ (may recovery_failed 23 refl)
                        (may rolled_back 24 refl)))))

  pub or_recover-EndsWell :
      (action : DeploymentAction) (prefix : String) (r : Result String (Unit {0}))
      (rest : Program S String (DeploymentReport × ℕ)) (s : S)
      → ((status : DeploymentReportStatus) (code : ℕ)
          → may_recover action status code ≡ true
          → may_end action status code ≡ true)
      → ((t : S) → EndsWell action (rest t))
      → EndsWell action (or_recover machine spec action prefix r rest s)
  unfolding or_recover
  or_recover-EndsWell action prefix (ok u) rest s may h = h s
  or_recover-EndsWell action prefix (err e) rest s may h =
      recover_after_failure-EndsWell action _ s may

  activate_artifact-EndsWell :
      (artifact : DeploymentArtifact) (s : S)
      → EndsWell activate (activate_artifact machine spec artifact s)
  unfolding activate_artifact check_activation may_end
  activate_artifact-EndsWell artifact s =
      continue_ind (EndsWell activate) _ _ _ (λ e h. error-EndsWell activate _ e)
        (λ u h. or_recover-EndsWell activate _ _ _ _ (may_recover-may_end activate (inl refl)) (λ t.
          or_recover-EndsWell activate _ _ _ _ (may_recover-may_end activate (inl refl))
            (λ t. observed-EndsWell activate activated _ 0 t refl)))

  pub activate_stage-EndsWell : (s : S) → EndsWell activate (activate_stage machine spec s)
  unfolding activate_stage may_end
  activate_stage-EndsWell s =
      continue_ind (EndsWell activate) _ s _ (λ e h. error-EndsWell activate s e)
        (λ artifact h.
          choice_ind (EndsWell activate) _ (λ changed. observed-EndsWell activate stale _ 20 s refl)
            (λ same. activate_artifact-EndsWell artifact s))
