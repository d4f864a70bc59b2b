-- ===== src/Tests/Confinement.antt =====
-- Examples for the commands of the deploy runner.
use maxops.Prelude.{
  ◌≡◌, ◌⊎◌, inl, inr, refl, sym, ap, ◌∙◌, subst, false, String, some, ok-injective, List, [], ◌∷◌,
  str_eq, codes, Option,
}
use maxops.Proto.Changes.{DeploymentArtifact, activate}
use maxops.Runner.Machine.{Command}
use maxops.Runner.Paths.{is_absolute, starts_with}
use maxops.Runner.Commands.{deployment_command, check_command}
use maxops.Runner.Stages.{join, activation}
use maxops.Runner.Actions.{main, restorable}
use maxops.Runner.Confinement.{Permitted, IsTarget, Keeps, Listed, nix, set, activation_of, check}
use maxops.Runner.StageCommands.{main_keeps}
use maxops.Tests.Runner.{Host, host, spec, start, at_baseline, built, old_path, new_path}

-- The profile is the recorded one or the artifact.
IsKnown : Host → Type 0
IsKnown h = (h.profile ≡ some old_path) ⊎ (h.profile ≡ some new_path)

built_of : {a : DeploymentArtifact} → some built ≡ some a → built ≡ a
built_of h = ap (λ (o : Option DeploymentArtifact). elim o [ Option.none ↦ built | some x ↦ x ]) h

target_known :
    (path : String) → IsTarget host spec activate path → (path ≡ old_path) ⊎ (path ≡ new_path)
unfolding IsTarget restorable
target_known path (inl (is_activation, a, has, e)) =
    inr (e ∙ ap (λ x. x.out_path) (sym (built_of has)))
target_known path (inr (e, may)) = inl (sym (ok-injective e))

head : List String → String
head [] = ""
head (s ∷ ss) = s

started :
    (c : Command) (h : Host) → Permitted host spec activate c → IsKnown h → IsKnown (start c h).0
unfolding IsKnown deployment_command str_eq Listed join is_absolute starts_with codes head
started c h (nix arguments) p = p
started c h (set path target) p = elim (target_known path target) [
  | inl e ↦ inl (ap some e)
  | inr e ↦ inr (ap some e)
]
started c h (activation_of path target) p = elim (target_known path target) [
  | inl e ↦ subst (λ x. IsKnown (start (activation host spec x) h).0) (sym e) p
  | inr e ↦ subst (λ x. IsKnown (start (activation host spec x) h).0) (sym e) p
]
started c h (check program arguments (inl e)) p =
    subst (λ x. IsKnown (start (check_command host x arguments) h).0) (sym (ap head e)) p
started c h (check program arguments (inr none_left)) p = absurd none_left

keeps_IsKnown : Keeps host spec activate IsKnown
keeps_IsKnown = record { sleeping = λ n h p. p; starting = started }

main_keeps_example : IsKnown (main host spec (at_baseline false)).0
unfolding IsKnown
main_keeps_example = main_keeps host spec keeps_IsKnown (at_baseline false) (inl refl)
