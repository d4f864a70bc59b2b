-- ===== src/Runner/StageCommands.antt =====
-- The commands that each stage of crates/maxops-executor/src/bin/maxops-deploy-runner.rs starts.
use maxops.Prelude.{ℕ, String, Option, none, some, refl, inl, Result}
use maxops.Prelude.Programs.{continue_ind, continue_inv, choice_ind}
use maxops.Proto.Changes.{
  DeploymentAction, prepare, build, activate, verify, rollback, DeploymentArtifact,
}
use maxops.Proto.Deployments.{DeploymentRunnerSpec, DeploymentReport}
use maxops.Runner.Machine.{Machine}
use maxops.Runner.Stages.{copy_artifact, ensure_artifact, verify_intended}
use maxops.Runner.Truth.{artifact-ok}
use maxops.Runner.Confinement.{
  Keeps, Kept, IsTarget, nix, command_text_keeps, command_status_keeps, set_and_activate_keeps,
  verify_from_keeps, recover_after_failure_keeps, or_recover_keeps,
}
use maxops.Runner.Actions.{
  observed, check_activation, activate_artifact, activate_stage, verify_stage, rollback_stage,
  prepare_stage, build_stage, with_code, stage, main,
}

module _ {S : Type 0} (machine : Machine S) (spec : DeploymentRunnerSpec) {P : S → Type 0} where
  verify_intended_keeps :
      {action : DeploymentAction}
      → Keeps machine spec action P
      → (a : DeploymentArtifact) (s : S) → P s
      → P (verify_intended machine spec a s).0
  unfolding verify_intended
  verify_intended_keeps keeps a s p =
      verify_from_keeps machine spec keeps a spec.verify_attempts none s p

  copy_keeps :
      Keeps machine spec activate P
      → (a : DeploymentArtifact) (source : Option String) (s : S) → P s
      → P (copy_artifact machine spec a source s).0
  unfolding copy_artifact
  copy_keeps keeps a none s p = p
  copy_keeps keeps a (some source) s p =
      command_status_keeps machine spec keeps _ spec.nix s (nix _) p

  ensure_artifact_keeps :
      Keeps machine spec activate P
      → (a : DeploymentArtifact) (s : S) → P s
      → P (ensure_artifact machine spec a s).0
  unfolding ensure_artifact
  ensure_artifact_keeps keeps a s p =
      choice_ind (λ (x : S × Result String (Unit {0})). P x.0) _ (λ here. p)
        (λ absent. copy_keeps keeps a spec.artifact_source s p)

  check_activation_keeps :
      Keeps machine spec activate P
      → (a : DeploymentArtifact) (s : S) → P s
      → P (check_activation machine spec a s).0
  unfolding check_activation observed Kept
  check_activation_keeps keeps a s p =
      or_recover_keeps machine spec keeps _ _ _ _ (λ q. q) (verify_intended_keeps keeps a s p)

  activate_stage_keeps :
      Keeps machine spec activate P → (s : S) → P s → P (activate_stage machine spec s).0
  unfolding activate_stage activate_artifact observed Kept IsTarget
  activate_stage_keeps keeps s p =
      continue_ind (λ (x : S × Result String (DeploymentReport × ℕ)). P x.0) _ s _ (λ e h. p)
        (λ a h.
          choice_ind (λ (x : S × Result String (DeploymentReport × ℕ)). P x.0) _ (λ changed. p)
            (λ same.
              continue_inv P _
                (λ u t q.
                  or_recover_keeps machine spec keeps _ _ _ _
                    (λ r. check_activation_keeps keeps a _ r)
                    (set_and_activate_keeps machine spec keeps a.out_path t
                      (inl (refl, a, artifact-ok spec a h, refl)) q))
                _ _ (ensure_artifact_keeps keeps a s p)))

  verify_stage_keeps :
      Keeps machine spec verify P → (s : S) → P s → P (verify_stage machine spec s).0
  unfolding verify_stage observed Kept
  verify_stage_keeps keeps s p =
      continue_inv P _
        (λ a t q.
          or_recover_keeps machine spec keeps _ _ _ _ (λ r. r) (verify_intended_keeps keeps a t q))
        _ _ p

  rollback_stage_keeps :
      Keeps machine spec rollback P → (s : S) → P s → P (rollback_stage machine spec s).0
  unfolding rollback_stage Kept
  rollback_stage_keeps keeps s p = recover_after_failure_keeps machine spec keeps _ s p

  prepare_stage_keeps :
      Keeps machine spec prepare P → (s : S) → P s → P (prepare_stage machine spec s).0
  unfolding prepare_stage
  prepare_stage_keeps keeps s p =
      continue_inv P _
        (λ digest t q.
          continue_inv P _ (λ drv t q. continue_inv P _ (λ u t q. q) _ _ q) _ _
            (command_text_keeps machine spec keeps _ t q))
        _ _ p

  build_stage_keeps : Keeps machine spec build P → (s : S) → P s → P (build_stage machine spec s).0
  unfolding build_stage
  build_stage_keeps keeps s p =
      continue_inv P _
        (λ digest t q.
          continue_inv P _
            (λ u t q.
              continue_inv P _
                (λ out t q.
                  continue_inv P _
                    (λ u t q.
                      continue_inv P _
                        (λ drv t q.
                          continue_inv P _ (λ u t q. continue_inv P _ (λ u t q. q) _ _ q) _ _ q)
                        _ _ (command_text_keeps machine spec keeps _ t q))
                    _ _ q)
                _ _ (command_text_keeps machine spec keeps _ t q))
            _ _ q)
        _ _ p

  stage_keeps :
      (action : DeploymentAction)
      → Keeps machine spec action P
      → (s : S) → P s
      → P (stage machine spec action s).0
  unfolding stage with_code
  stage_keeps prepare keeps s p = continue_inv P _ (λ r t q. q) _ _ (prepare_stage_keeps keeps s p)
  stage_keeps build keeps s p = continue_inv P _ (λ r t q. q) _ _ (build_stage_keeps keeps s p)
  stage_keeps activate keeps s p = activate_stage_keeps keeps s p
  stage_keeps verify keeps s p = verify_stage_keeps keeps s p
  stage_keeps rollback keeps s p = rollback_stage_keeps keeps s p

  -- A run keeps whatever sleeping and every command that `Permitted` allows for the action of the
  -- specification keep.
  pub main_keeps : Keeps machine spec spec.job.action P → (s : S) → P s → P (main machine spec s).0
  unfolding main
  main_keeps keeps s p = continue_inv P _ (λ u t q. stage_keeps spec.job.action keeps t q) _ _ p
