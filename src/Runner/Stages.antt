-- ===== src/Runner/Stages.antt =====
-- `set_and_activate`, `ensure_artifact` and the loop of verification of
-- crates/maxops-executor/src/bin/maxops-deploy-runner.rs.
use Prim.Native.String.{◌++◌}
use maxops.Prelude.{
  ℕ, zero, suc, Bool, true, false, String, Option, none, some, List, [], ◌∷◌, Result, ok, err,
  ensure, ◌==◌, codes,
}
use maxops.Prelude.Programs.{Program, ◌>>◌, continue_with, lift, if◌then◌else◌}
use maxops.Proto.Changes.{DeploymentArtifact}
use maxops.Proto.Deployments.{DeploymentRunnerSpec}
use maxops.Runner.Paths.{ensure_store_path, is_absolute}
use maxops.Runner.Machine.{Machine, Command, cleared}
use maxops.Runner.Commands.{command_status, run_verification_commands}
use maxops.Runner.Observe.{observe, current_is_intended}

ends_with_slash : List ℕ → Bool
ends_with_slash [] = false
ends_with_slash (c ∷ []) = c == b'/'
ends_with_slash (c ∷ d ∷ cs) = ends_with_slash (d ∷ cs)

-- `Path::new(out_path).join(program)`: an absolute program stands alone.
unfoldable pub join : String → String → String
unfolding is_absolute ends_with_slash codes
join out_path program = elim (is_absolute program) [
  | true ↦ program
  | false ↦ elim (ends_with_slash (codes out_path)) [
    | true ↦ out_path ++ program
    | false ↦ out_path ++ "/" ++ program
  ]
]

-- `wrap_err(context)`, as `{error:#}` prints it.
abbrev pub wrap_err {ℓ} : {A : Type ℓ} → String → Result String A → Result String A
wrap_err context (ok a) = ok a
wrap_err context (err e) = err (context ++ ": " ++ e)

module _ {S : Type 0} (machine : Machine S) (spec : DeploymentRunnerSpec) where
  open machine use {start, sleep, exists}

  -- `ensure_artifact` when the path is absent, with the configured source.
  unfoldable pub copy_artifact : DeploymentArtifact → Option String → Program S String (Unit {0})
  copy_artifact artifact none s =
      (s, err "artifact is absent on target and no source is configured")
  copy_artifact artifact (some source) s =
      command_status machine spec.nix ("copy" ∷ "--from" ∷ source ∷ artifact.out_path ∷ []) s

  unfoldable pub ensure_artifact : DeploymentArtifact → Program S String (Unit {0})
  ensure_artifact artifact s =
      if exists s artifact.out_path
      then (s, ok tt)
      else copy_artifact artifact spec.artifact_source s

  abbrev pub profile_arguments : String → List String
  profile_arguments out_path = "-p" ∷ spec.profile_path ∷ "--set" ∷ out_path ∷ []

  abbrev pub activation : String → Command
  activation out_path = record {
    program = join out_path spec.activation_program;
    arguments = spec.activation_arguments;
    environment = cleared;
  }

  unfoldable pub set_profile : String → Program S String (Unit {0})
  set_profile out_path s =
      let r = command_status machine spec.nix_env (profile_arguments out_path) s in
      (r.0, wrap_err "set persistent deployment profile" r.1)

  unfoldable pub run_activation : String → Program S String (Unit {0})
  run_activation out_path s =
      let r = start (activation out_path) s in
      continue_with r.0 (wrap_err "start activation program" r.1)
        (λ output. lift (ensure output.success "activation program failed"))

  unfoldable pub set_and_activate : String → Program S String (Unit {0})
  set_and_activate out_path =
      lift (ensure_store_path out_path) >> set_profile out_path >> run_activation out_path

  -- One round of `verify_intended`: its body without the pause.
  unfoldable pub verification_attempt : DeploymentArtifact → Program S String (Unit {0})
  verification_attempt artifact s =
      let seen = observe machine spec s in
      if current_is_intended artifact seen.0 seen.1
      then run_verification_commands machine spec.verify_commands s
      else (s, err "running or persistent closure differs from artifact")

  -- `if attempt + 1 < verify_attempts`, by the number of attempts that are left.
  unfoldable pub pause : ℕ → S → S
  pause zero s = s
  pause (suc remaining) s = sleep spec.verify_interval_seconds s

  abbrev last_error_or : Option String → String
  last_error_or none = "verification did not run"
  last_error_or (some e) = e

  -- The loop, by the number of attempts that are left, with `last_error`.
  unfoldable pub verify_from : DeploymentArtifact → ℕ → Option String → Program S String (Unit {0})
  verify_from artifact zero last_error s = (s, err (last_error_or last_error))
  verify_from artifact (suc remaining) last_error s =
      let tried = verification_attempt artifact s in
      elim tried.1 [
        | ok u ↦ (tried.0, ok tt)
        | err e ↦ verify_from artifact remaining (some e) (pause remaining tried.0)
      ]

  unfoldable pub verify_intended : DeploymentArtifact → Program S String (Unit {0})
  verify_intended artifact = verify_from artifact spec.verify_attempts none
