-- ===== src/Runner/Verification.antt =====
-- The loop `verify_intended` of crates/maxops-executor/src/bin/maxops-deploy-runner.rs against its
-- attempts one by one.
use maxops.Prelude.{
  ℕ, zero, suc, ◌+◌, ◌<◌, ◌≤◌, Bool, true, false, String, Option, none, some, List, [], ◌∷◌, ◌≡◌,
  refl, sym, ap, subst, ◌↔◌, ◌⊎◌, inl, inr, arith, Result, ok, err, Result-cases, err-ok,
  Bool-cases, ◌∙◌,
}
use maxops.Prelude.Programs.{Program, choice_ind}
use maxops.Proto.Changes.{DeploymentArtifact}
use maxops.Proto.Deployments.{DeploymentRunnerSpec}
use maxops.Runner.Machine.{Machine}
use maxops.Runner.Commands.{run_verification_commands}
use maxops.Runner.Observe.{observe, current_is_intended, current_is_intended_iff}
use maxops.Runner.Stages.{verification_attempt, pause, verify_from, verify_intended}

module _ {S : Type 0} (machine : Machine S) (spec : DeploymentRunnerSpec)
    (artifact : DeploymentArtifact) where
  -- The host after an attempt and the pause that follows it, with so many attempts left.
  abbrev pub round : ℕ → S → S
  round remaining s = pause machine spec remaining (verification_attempt machine spec artifact s).0

  -- The host when attempt `i` of `attempts` starts.
  unfoldable pub before_attempt : ℕ → ℕ → S → S
  before_attempt attempts zero s = s
  before_attempt zero (suc i) s = s
  before_attempt (suc remaining) (suc i) s = before_attempt remaining i (round remaining s)

  -- Attempt `i` is one of the `attempts` and passes.
  unfoldable pub Passes : ℕ → ℕ → S → Type 0
  Passes attempts i s =
      (i < attempts)
      × ((verification_attempt machine spec artifact (before_attempt attempts i s)).1 ≡ ok tt)

  abbrev pub loop : ℕ → Option String → S → S × Result String (Unit {0})
  loop = verify_from machine spec artifact

  pub passed_now :
      (remaining : ℕ) (last : Option String) (s : S)
      → (verification_attempt machine spec artifact s).1 ≡ ok tt
      → loop (suc remaining) last s ≡ ((verification_attempt machine spec artifact s).0, ok tt)
  unfolding verify_from verification_attempt current_is_intended observe
      maxops.Prelude.Programs.if◌then◌else◌
  passed_now remaining last s h = rw h refl

  pub failed_now :
      (remaining : ℕ) (last : Option String) (s : S) (e : String)
      → (verification_attempt machine spec artifact s).1 ≡ err e
      → loop (suc remaining) last s ≡ loop remaining (some e) (round remaining s)
  unfolding verify_from verification_attempt pause current_is_intended observe
      maxops.Prelude.Programs.if◌then◌else◌
  failed_now remaining last s e h = rw h refl

  none_left : (last : Option String) (s : S) → (loop 0 last s).1 ≡ ok tt → ⊥
  unfolding verify_from
  none_left last s h = cc

  verify_from-Passes :
      (attempts : ℕ) (last : Option String) (s : S)
      → (loop attempts last s).1 ≡ ok tt
      → (i : ℕ) × Passes attempts i s
        × ((loop attempts last s).0
            ≡ (verification_attempt machine spec artifact (before_attempt attempts i s)).0)
  unfolding before_attempt Passes
  verify_from-Passes zero last s h = absurd (none_left last s h)
  verify_from-Passes (suc remaining) last s h =
      elim (Result-cases (verification_attempt machine spec artifact s).1) [
        | inl (u, q) ↦ (0, (omega arith, q), ap (λ x. x.0) (passed_now remaining last s q))
        | inr (e, q) ↦
            let same = failed_now remaining last s e q in
            let (i, (less, passes), ends) =
              verify_from-Passes remaining (some e) (round remaining s)
                (ap (λ x. x.1) (sym same) ∙ h) in
            (suc i, (omega arith, passes), ap (λ x. x.0) same ∙ ends)
      ]

  Passes-verify_from :
      (attempts i : ℕ) (last : Option String) (s : S)
      → Passes attempts i s
      → (loop attempts last s).1 ≡ ok tt
  unfolding before_attempt Passes
  Passes-verify_from zero i last s (less, p) = absurd (omega arith)
  Passes-verify_from (suc remaining) zero last s (less, p) =
      ap (λ x. x.1) (passed_now remaining last s p)
  Passes-verify_from (suc remaining) (suc i) last s (less, p) =
      elim (Result-cases (verification_attempt machine spec artifact s).1) [
        | inl (u, q) ↦ ap (λ x. x.1) (passed_now remaining last s q)
        | inr (e, q) ↦
            ap (λ x. x.1) (failed_now remaining last s e q)
            ∙ Passes-verify_from remaining i (some e) (round remaining s) (omega arith, p)
      ]

  -- `verify_intended` succeeds exactly when one of its attempts passes.
  pub verify_intended-Passes :
      (s : S)
      → ((verify_intended machine spec artifact s).1 ≡ ok tt)
        ↔ ((i : ℕ) × Passes spec.verify_attempts i s)
  unfolding verify_intended
  verify_intended-Passes s = (
    λ h. let (i, p, e) = verify_from-Passes spec.verify_attempts none s h in (i, p),
    λ (i, p). Passes-verify_from spec.verify_attempts i none s p,
  )

  -- A success leaves the host as some attempt that passed has left it.
  pub verify_intended-ends :
      (s : S)
      → (verify_intended machine spec artifact s).1 ≡ ok tt
      → (t : S) × ((verification_attempt machine spec artifact t).1 ≡ ok tt)
        × ((verify_intended machine spec artifact s).0
            ≡ (verification_attempt machine spec artifact t).0)
  unfolding verify_intended Passes
  verify_intended-ends s h =
      let (i, (less, p), e) = verify_from-Passes spec.verify_attempts none s h in
      (before_attempt spec.verify_attempts i s, p, e)

  -- An attempt that passes has seen both links at the artifact, and its checks have passed.
  pub verification_attempt-passed :
      (s : S)
      → (verification_attempt machine spec artifact s).1 ≡ ok tt
      → (observe machine spec s ≡ (some artifact.out_path, some artifact.out_path))
        × ((run_verification_commands machine spec.verify_commands s).1 ≡ ok tt)
  unfolding verification_attempt
  verification_attempt-passed s h =
      choice_ind
        (λ (x : S × Result String (Unit {0})).
          x.1 ≡ ok tt
          → (observe machine spec s ≡ (some artifact.out_path, some artifact.out_path))
            × ((run_verification_commands machine spec.verify_commands s).1 ≡ ok tt))
        _
        (λ seen passed.
          let (running, profile) = (current_is_intended_iff artifact _ _).0 seen in
          (
            ap (λ r. (r, (observe machine spec s).1)) running
                ∙ ap (λ p. (some artifact.out_path, p)) profile,
            passed,
          ))
        (λ unseen passed. absurd (err-ok passed)) h
