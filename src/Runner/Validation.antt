-- ===== src/Runner/Validation.antt =====
-- `validate` of crates/maxops-executor/src/bin/maxops-deploy-runner.rs.
use maxops.Prelude.{Bool, true, false, ◌&&◌, ltb, String, List, [], ◌∷◌, Result, ensure, ◌>>◌}
use maxops.Proto.Deployments.{DeploymentRunnerSpec}
use maxops.Runner.Paths.{is_absolute, is_plain_relative}

all_absolute : List String → Bool
unfolding is_absolute
all_absolute [] = true
all_absolute (path ∷ paths) = is_absolute path && all_absolute paths

have_programs : List (List String) → Bool
have_programs [] = true
have_programs ([] ∷ commands) = false
have_programs ((c ∷ cs) ∷ commands) = have_programs commands

unfoldable pub validate : DeploymentRunnerSpec → Result String (Unit {0})
unfolding all_absolute is_plain_relative have_programs
validate spec = do
  ensure (all_absolute (spec.nix ∷ spec.nix_env ∷ spec.profile_path ∷ spec.running_link ∷ []))
      "deployment paths must be absolute"
  ensure (is_plain_relative spec.activation_program) "activation program must be a relative path"
  ensure (ltb 0 spec.verify_attempts) "verify attempts must be positive"
  ensure (have_programs spec.verify_commands) "verification commands must have a program"
