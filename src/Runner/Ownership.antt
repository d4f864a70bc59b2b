-- ===== src/Runner/Ownership.antt =====
-- When crates/maxops-executor/src/bin/maxops-deploy-runner.rs leaves the host alone.
use maxops.Prelude.{
  ℕ, Bool, true, false, not, ◌&&◌, String, Option, some, ◌≡◌, refl, ap, ◌∙◌, ◌↔◌, ◌⊎◌, inl, inr,
  arith, Result, ok, of_not-false,
}
use maxops.Prelude.Programs.{continue_ind, continue_ok, choice_ind, choice_true}
use maxops.Proto.Changes.{DeploymentAction, activate, verify, rollback, DeploymentArtifact}
use maxops.Proto.Deployments.{
  DeploymentRunnerSpec, DeploymentReport, DeploymentReportStatus, action_eq, stale, activated,
  verified, rolled_back, superseded, recovery_failed, failed, prepared, built, outcome_unknown,
}
use maxops.Runner.Machine.{Machine}
use maxops.Runner.Observe.{observe, baseline_matches, current_is_owned, same_text_iff, artifact}
use maxops.Runner.Validation.{validate}
use maxops.Runner.Evidence.{Evidence}
use maxops.Runner.Truth.{artifact-ok, main-IsTrue}
use maxops.Runner.Actions.{main, stage, recover_after_failure, observed, activate_stage}

artifact-some :
    (spec : DeploymentRunnerSpec) (a : DeploymentArtifact)
    → spec.job.artifact ≡ some a
    → artifact spec ≡ ok a
unfolding artifact
artifact-some spec a h = ground arith

owned_parts :
    (a : DeploymentArtifact) (baseline running profile : Option String)
    → current_is_owned a baseline running profile ≡ true
    → (profile ≡ some a.out_path) × ((running ≡ some a.out_path) ⊎ (running ≡ baseline))
unfolding current_is_owned
owned_parts a baseline running profile h = ground (
  arith,
  same_text_iff profile (some a.out_path),
  same_text_iff running (some a.out_path),
  same_text_iff running baseline,
)

pub may_restore :
    (automatic : Bool) (action : DeploymentAction)
    → (not automatic && not (action_eq action rollback)) ≡ false
    → (automatic ≡ true) ⊎ (action ≡ rollback)
may_restore true action h = inl refl
may_restore false rollback h = inr refl
may_restore false verify h = cc
may_restore false activate h = cc
may_restore false DeploymentAction.prepare h = cc
may_restore false DeploymentAction.build h = cc

module _ {S : Type 0} (machine : Machine S) (spec : DeploymentRunnerSpec) where
  -- The persistent profile is the artifact of the specification, and the running closure is it too
  -- or the one that the plan recorded.
  unfoldable pub IsOwned : S → Type 0
  IsOwned s =
      (a : DeploymentArtifact) × (spec.job.artifact ≡ some a)
      × ((observe machine spec s).1 ≡ some a.out_path)
      × (((observe machine spec s).0 ≡ some a.out_path)
          ⊎ ((observe machine spec s).0 ≡ spec.job.plan.runtime_baseline.running_closure))

  -- The host is as it was, or it was owned and restoring it was allowed.
  unfoldable pub IsRespectful : DeploymentAction → S → S → Type 0
  IsRespectful action s end =
      (end ≡ s) ⊎ (IsOwned s × ((spec.automatic_rollback ≡ true) ⊎ (action ≡ rollback)))

  -- A recovery changes the host only when its links belong to the artifact of the specification,
  -- and only when automatic rollback is on or a rollback was asked for.
  pub recover_after_failure-IsRespectful :
      (action : DeploymentAction) (failure : String) (s : S)
      → IsRespectful action s (recover_after_failure machine spec action failure s).0
  unfolding recover_after_failure IsRespectful IsOwned observed
  recover_after_failure-IsRespectful action failure s =
      let Keeps : S × Result String (DeploymentReport × ℕ) → Type 0 =
        λ x. IsRespectful action s x.0 in
      continue_ind Keeps _ s _ (λ e h. inl refl)
        (λ a h.
          choice_ind Keeps _ (λ lost. inl refl)
            (λ owned.
              choice_ind Keeps _ (λ off. inl refl)
                (λ on.
                  let (profile, running) = owned_parts a _ _ _ (of_not-false _ owned) in
                  inr ((a, artifact-ok spec a h, profile, running), may_restore _ action on))))

  stale_reply :
      (s : S) (a : DeploymentArtifact)
      → spec.job.artifact ≡ some a
      → baseline_matches machine spec s (observe machine spec s).0 (observe machine spec s).1
        ≡ false
      → activate_stage machine spec s
        ≡ observed machine spec activate stale "runtime baseline changed before activation" 20 s
  unfolding activate_stage
  stale_reply s a has changed =
      continue_ok _ s (artifact-some spec a has) ∙ choice_true _ _ (ap not changed)

  stale_by :
      (start end : S) (status : DeploymentReportStatus)
      → Evidence machine spec start end status 20
      → baseline_matches machine spec start
          (observe machine spec start).0
          (observe machine spec start).1
        ≡ false
  unfolding Evidence
  stale_by start end stale (c, same, h) = h
  stale_by start end activated (c, h) = absurd (omega arith)
  stale_by start end verified (c, h) = absurd (omega arith)
  stale_by start end rolled_back (c, h) = absurd (omega arith)
  stale_by start end superseded (c, h) = absurd (omega arith)
  stale_by start end failed (c, h) = absurd (omega arith)
  stale_by start end recovery_failed c = absurd (omega arith)
  stale_by start end prepared h = absurd h
  stale_by start end built h = absurd h
  stale_by start end outcome_unknown h = absurd h

  -- An activation with a valid specification and an artifact exits with 20, leaving the host as it
  -- was, exactly when the host does not match the baseline of the plan.
  pub main-stale_iff :
      (s : S) (a : DeploymentArtifact)
      → validate spec ≡ ok tt
      → spec.job.action ≡ activate
      → spec.job.artifact ≡ some a
      → ((report : DeploymentReport) × (main machine spec s ≡ (s, ok (report, 20)))) ↔ (
          baseline_matches machine spec s (observe machine spec s).0 (observe machine spec s).1
          ≡ false)
  unfolding main stage observed
  main-stale_iff s a valid action has = (
    λ (report, e).
        let (seen, evidence) =
          main-IsTrue machine spec s report 20 (inl action) (ap (λ x. x.1) e) in
        stale_by s _ report.status evidence,
    λ changed. (
      _,
      continue_ok _ s valid ∙ ap (λ x. stage machine spec x s) action ∙ stale_reply s a has changed,
    ),
  )
