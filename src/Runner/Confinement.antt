-- ===== src/Runner/Confinement.antt =====
-- The commands that crates/maxops-executor/src/bin/maxops-deploy-runner.rs may start.
use maxops.Prelude.{
  ℕ, zero, suc, true, String, Option, some, List, [], ◌∷◌, ◌≡◌, refl, sym, ◌⊎◌, inl, inr, Result,
  ok, err, subst, Result-cases,
}
use maxops.Prelude.Programs.{Program, continue_ind, continue_inv, choice_ind}
use maxops.Proto.Changes.{DeploymentAction, activate, rollback, DeploymentArtifact}
use maxops.Proto.Deployments.{DeploymentRunnerSpec, DeploymentReport}
use maxops.Runner.Machine.{Machine, Command}
use maxops.Runner.Commands.{
  deployment_command, check_command, command_status, command_text, run_verification_commands,
}
use maxops.Runner.Stages.{
  profile_arguments, activation, set_profile, run_activation, set_and_activate,
  verification_attempt, pause, verify_from,
}
use maxops.Runner.Verification.{passed_now, failed_now}
use maxops.Runner.Ownership.{may_restore}
use maxops.Runner.Actions.{
  restorable, restore, conclude, recover_after_failure, or_recover, observed,
}

-- The command stands in the list.
unfoldable pub Listed : List String → List (List String) → Type 0
Listed argv [] = ⊥
Listed argv (a ∷ commands) = (argv ≡ a) ⊎ Listed argv commands

module _ {S : Type 0} (machine : Machine S) (spec : DeploymentRunnerSpec) where
  -- The paths that the profile may be set to: the artifact in an activation, and the recorded
  -- baseline where a rollback is allowed.
  unfoldable pub IsTarget : DeploymentAction → String → Type 0
  IsTarget action path =
      ((action ≡ activate)
        × (a : DeploymentArtifact) × (spec.job.artifact ≡ some a)
        × (path ≡ a.out_path))
      ⊎ ((restorable machine spec ≡ ok path)
          × ((spec.automatic_rollback ≡ true) ⊎ (action ≡ rollback)))

  -- The commands that a stage may start: Nix, the two that switch the host to a path, and the
  -- verification commands of the specification.
  pub data Permitted (action : DeploymentAction) : Command → Type 0 where
    nix :
        (arguments : List String) → Permitted action (deployment_command machine spec.nix arguments)
    set :
        (path : String)
        → IsTarget action path
        → Permitted action
            (deployment_command machine spec.nix_env (profile_arguments machine spec path))
    activation_of :
        (path : String) → IsTarget action path → Permitted action (activation machine spec path)
    check :
        (program : String) (arguments : List String)
        → Listed (program ∷ arguments) spec.verify_commands
        → Permitted action (check_command machine program arguments)

  -- Sleeping and every permitted command keep the property.
  pub record Keeps (action : DeploymentAction) (P : S → Type 0) : Type 0 where
    pub sleeping : (n : ℕ) (s : S) → P s → P (Machine.sleep machine n s)
    pub starting :
        (c : Command) (s : S) → Permitted action c → P s → P (Machine.start machine c s).0

  module _ {action : DeploymentAction} {P : S → Type 0} (keeps : Keeps action P) where
    open keeps use {sleeping, starting}

    pub command_status_keeps :
        (arguments : List String) (program : String) (s : S)
        → Permitted action (deployment_command machine program arguments)
        → P s
        → P (command_status machine program arguments s).0
    unfolding command_status
    command_status_keeps arguments program s h p =
        continue_inv P _ (λ output t q. q) _ _ (starting _ s h p)

    pub command_text_keeps :
        (arguments : List String) (s : S) → P s → P (command_text machine spec.nix arguments s).0
    unfolding command_text
    command_text_keeps arguments s p =
        continue_inv P _ (λ output t q. q) _ _ (starting _ s (nix arguments) p)

    checks_keep :
        (commands : List (List String)) (s : S)
        → ((argv : List String) → Listed argv commands → Listed argv spec.verify_commands)
        → P s
        → P (run_verification_commands machine commands s).0
    unfolding run_verification_commands Listed
    checks_keep [] s listed p = p
    checks_keep ([] ∷ commands) s listed p = p
    checks_keep ((program ∷ arguments) ∷ commands) s listed p =
        continue_inv P _
          (λ output t q.
            continue_inv P _ (λ u t q. checks_keep commands t (λ argv h. listed argv (inr h)) q) t _
              q)
          _ _ (starting _ s (check program arguments (listed _ (inl refl))) p)

    attempt_keeps :
        (a : DeploymentArtifact) (s : S) → P s → P (verification_attempt machine spec a s).0
    unfolding verification_attempt
    attempt_keeps a s p =
        let Kept : S × Result String (Unit {0}) → Type 0 = λ x. P x.0 in
        choice_ind Kept _ (λ seen. checks_keep spec.verify_commands s (λ argv h. h) p) (λ unseen. p)

    pause_keeps : (remaining : ℕ) (s : S) → P s → P (pause machine spec remaining s)
    unfolding pause
    pause_keeps zero s p = p
    pause_keeps (suc remaining) s p = sleeping _ s p

    pub verify_from_keeps :
        (a : DeploymentArtifact) (attempts : ℕ) (last : Option String) (s : S)
        → P s
        → P (verify_from machine spec a attempts last s).0
    unfolding verify_from
    verify_from_keeps a zero last s p = p
    verify_from_keeps a (suc remaining) last s p =
        elim (Result-cases (verification_attempt machine spec a s).1) [
          | inl (u, passed) ↦
              subst (λ x. P x.0) (sym (passed_now machine spec a remaining last s passed))
                (attempt_keeps a s p)
          | inr (e, failed) ↦
              subst (λ x. P x.0) (sym (failed_now machine spec a remaining last s e failed))
                (verify_from_keeps a remaining (some e) _
                  (pause_keeps remaining _ (attempt_keeps a s p)))
        ]

    pub set_and_activate_keeps :
        (path : String) (s : S)
        → IsTarget action path
        → P s
        → P (set_and_activate machine spec path s).0
    unfolding set_and_activate set_profile run_activation
    set_and_activate_keeps path s target p =
        continue_inv P _
          (λ u t q.
            continue_inv P _ (λ output t q. q) _ _ (starting _ t (activation_of path target) q))
          _ _
          (continue_inv P _
            (λ u t q.
              command_status_keeps (profile_arguments machine spec path) spec.nix_env t
                (set path target) q)
            s _ p)

    unfoldable pub Kept : S × Result String (DeploymentReport × ℕ) → Type 0
    Kept x = P x.0

    conclude_keeps :
        (failure : String) (r : Result String (Unit {0})) (s : S)
        → P s
        → Kept (conclude machine spec action failure r s)
    unfolding conclude observed Kept
    conclude_keeps failure (err e) s p = p
    conclude_keeps failure (ok u) s p = choice_ind Kept _ (λ no. p) (λ yes. p)

    pub recover_after_failure_keeps :
        (failure : String) (s : S)
        → P s
        → Kept (recover_after_failure machine spec action failure s)
    unfolding recover_after_failure restore observed IsTarget Kept
    recover_after_failure_keeps failure s p =
        continue_ind Kept _ s _ (λ e h. p)
          (λ a h.
            choice_ind Kept _ (λ lost. p)
              (λ owned.
                choice_ind Kept _ (λ off. p)
                  (λ on.
                    continue_ind Kept _ s _ (λ e h. p)
                      (λ path h.
                        conclude_keeps failure _ _
                          (set_and_activate_keeps path s (inr (h, may_restore _ action on)) p)))))

    pub or_recover_keeps :
        (prefix : String) (r : Result String (Unit {0}))
        (rest : Program S String (DeploymentReport × ℕ)) (s : S)
        → (P s → Kept (rest s))
        → P s
        → Kept (or_recover machine spec action prefix r rest s)
    unfolding or_recover
    or_recover_keeps prefix (ok u) rest s h p = h p
    or_recover_keeps prefix (err e) rest s h p = recover_after_failure_keeps _ s p
