-- ===== src/Runner/Observe.antt =====
-- What crates/maxops-executor/src/bin/maxops-deploy-runner.rs reads off the host, and the tests of
-- it against the plan.
use maxops.Prelude.{
  ℕ, Bool, true, false, ◌&&◌, ◌||◌, ◌==◌, String, Option, none, some, ◌≡◌, refl, ap, ◌∙◌, arith,
  str_eq, str_eq_refl, eq_of_str_eq, ◌↔◌, Result, ok_or,
}
use maxops.Proto.Names.{is_empty}
use maxops.Proto.Changes.{DeploymentArtifact}
use maxops.Proto.Deployments.{DeploymentRunnerSpec}
use maxops.Runner.Paths.{trim, generation_of}
use maxops.Runner.Machine.{Machine}

-- `==` of two `Option<&str>`
unfoldable pub same_text : Option String → Option String → Bool
same_text none none = true
same_text (some a) (some b) = str_eq a b
same_text _ _ = false

pub same_text_iff : (a b : Option String) → (same_text a b ≡ true) ↔ (a ≡ b)
unfolding same_text
same_text_iff none none = (λ h. refl, λ e. refl)
same_text_iff none (some b) = (λ h. cc, λ e. cc)
same_text_iff (some a) none = (λ h. cc, λ e. cc)
same_text_iff (some a) (some b) =
    (λ h. ap some (eq_of_str_eq a b h), λ e. ground (arith, str_eq_refl a))

unfoldable pub optional_matches : Option String → Option String → Bool
unfolding same_text
optional_matches none observed = true
optional_matches (some expected) observed = same_text observed (some expected)

unfoldable pub current_is_intended : DeploymentArtifact → Option String → Option String → Bool
unfolding same_text
current_is_intended artifact running profile =
    same_text running (some artifact.out_path) && same_text profile (some artifact.out_path)

pub optional_matches-some :
    (o : Option String) (expected : String) (observed : Option String)
    → o ≡ some expected
    → optional_matches o observed ≡ true
    → observed ≡ some expected
unfolding optional_matches
optional_matches-some none expected observed e h = cc
optional_matches-some (some x) expected observed e h = (same_text_iff observed (some x)).0 h ∙ e

pub current_is_intended_iff :
    (artifact : DeploymentArtifact) (running profile : Option String)
    → (current_is_intended artifact running profile ≡ true)
      ↔ ((running ≡ some artifact.out_path) × (profile ≡ some artifact.out_path))
unfolding current_is_intended
current_is_intended_iff artifact running profile = ground (
  arith,
  same_text_iff running (some artifact.out_path),
  same_text_iff profile (some artifact.out_path),
)

unfoldable pub current_is_owned :
    DeploymentArtifact → Option String → Option String → Option String → Bool
unfolding same_text
current_is_owned artifact baseline_running running profile =
    same_text profile (some artifact.out_path)
    && (same_text running (some artifact.out_path) || same_text running baseline_running)

unfoldable pub artifact : DeploymentRunnerSpec → Result String DeploymentArtifact
artifact spec = ok_or spec.job.artifact "deployment stage requires a built artifact"

-- `filter(|value| !value.is_empty())`
abbrev not_empty : String → Option String
not_empty value = elim (is_empty value) [ true ↦ none | false ↦ some value ]

same_generation : Option ℕ → ℕ → Bool
same_generation none expected = false
same_generation (some generation) expected = generation == expected

module _ {S : Type 0} (machine : Machine S) where
  open machine use {read_link, canonicalize, read_text}

  unfoldable pub observe : DeploymentRunnerSpec → S → Option String × Option String
  observe spec s = (read_link s spec.running_link, canonicalize s spec.profile_path)

  unfoldable pub read_boot_id : S → Option String
  unfolding trim
  read_boot_id s = elim (read_text s "/proc/sys/kernel/random/boot_id") [
    | none ↦ none
    | some value ↦ not_empty (trim value)
  ]

  unfoldable pub profile_generation : S → String → Option ℕ
  unfolding generation_of
  profile_generation s path = generation_of (read_link s path)

  unfoldable pub boot_matches : DeploymentRunnerSpec → S → Bool
  unfolding same_text read_boot_id
  boot_matches spec s = elim spec.job.plan.runtime_baseline.boot_id [
    | none ↦ true
    | some expected ↦ same_text (read_boot_id s) (some expected)
  ]

  unfoldable pub generation_matches : DeploymentRunnerSpec → S → Bool
  unfolding profile_generation same_generation
  generation_matches spec s = elim spec.job.plan.runtime_baseline.generation [
    | none ↦ true
    | some expected ↦ same_generation (profile_generation s spec.profile_path) expected
  ]

  unfoldable pub baseline_matches : DeploymentRunnerSpec → S → Option String → Option String → Bool
  unfolding optional_matches boot_matches generation_matches
  baseline_matches spec s running profile =
      optional_matches spec.job.plan.runtime_baseline.running_closure running
      && optional_matches spec.job.plan.runtime_baseline.persistent_profile profile
      && boot_matches spec s
      && generation_matches spec s

  unfoldable pub restored_baseline_matches :
      DeploymentRunnerSpec → S → Option String → Option String → Bool
  unfolding optional_matches boot_matches
  restored_baseline_matches spec s running profile =
      optional_matches spec.job.plan.runtime_baseline.running_closure running
      && optional_matches spec.job.plan.runtime_baseline.persistent_profile profile
      && boot_matches spec s
