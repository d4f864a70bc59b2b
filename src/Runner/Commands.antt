-- ===== src/Runner/Commands.antt =====
-- `command_text`, `command_status`, `ensure_command_succeeded`, `lock_digest` and
-- `run_verification_commands` of crates/maxops-executor/src/bin/maxops-deploy-runner.rs.
use Prim.Native.String.{◌++◌}
use maxops.Prelude.{
  ℕ, ◌*◌, Bool, true, false, not, ◌&&◌, leb, ◌==◌, String, List, [], ◌∷◌, codes, all_codes, Result,
  ok, err, ensure,
}
use maxops.Prelude.Programs.{Program, ◌>>=◌, ◌>>◌, lift}
use maxops.Proto.Names.{is_empty}
use maxops.Runner.Paths.{trim}
use maxops.Runner.Machine.{Machine, Command, Output, cleared, deployment}

abbrev is_not_newline : ℕ → Bool
is_not_newline c = not (c == 10)

abbrev command_failed : Output → String
command_failed output =
    "deployment command failed with " ++ output.status ++ ": " ++ trim output.stderr

unfoldable pub ensure_command_succeeded : Output → Result String (Unit {0})
ensure_command_succeeded output = elim (leb output.stderr_len (64 * 1024)) [
  | false ↦ err "deployment command stderr is oversized"
  | true ↦ ensure output.success (command_failed output)
]

-- The text of a finished command: its output, trimmed, when it is one line that is not empty.
unfoldable pub output_text : Output → Result String String
unfolding ensure_command_succeeded codes all_codes
output_text output = elim (ensure_command_succeeded output) [
  | err e ↦ err e
  | ok u ↦ elim (leb output.stdout_len 4096) [
    | false ↦ err "deployment command output is oversized"
    | true ↦ elim output.stdout [
      | err e ↦ err e
      | ok stdout ↦
          let text = trim stdout in
          elim (not (is_empty text) && all_codes is_not_newline (codes text)) [
            | true ↦ ok text
            | false ↦ err "invalid deployment command output"
          ]
    ]
  ]
]

module _ {S : Type 0} (machine : Machine S) where
  open machine use {start, read_bytes, blake3_hex}

  unfoldable pub deployment_command : String → List String → Command
  deployment_command program arguments = record {
    program = program;
    arguments = arguments;
    environment = deployment;
  }

  unfoldable pub command_text : String → List String → Program S String String
  command_text program arguments =
      start (deployment_command program arguments) >>= λ output. lift (output_text output)

  unfoldable pub command_status : String → List String → Program S String (Unit {0})
  command_status program arguments = start (deployment_command program arguments) >>= λ output.
      lift (ensure_command_succeeded output)

  unfoldable pub lock_digest : S → Result String String
  lock_digest s = elim (read_bytes s "flake.lock") [
    | ok bytes ↦ ok (blake3_hex bytes)
    | err e ↦ err ("read frozen flake.lock: " ++ e)
  ]

  abbrev pub check_command : String → List String → Command
  check_command program arguments = record {
    program = program;
    arguments = arguments;
    environment = cleared;
  }

  unfoldable pub run_verification_commands : List (List String) → Program S String (Unit {0})
  run_verification_commands [] s = (s, ok tt)
  run_verification_commands ([] ∷ commands) s = (s, err "empty check")
  run_verification_commands ((program ∷ arguments) ∷ commands) s =
      (start (check_command program arguments) >>= λ output.
      lift (ensure output.success "target verification command failed")
      >> run_verification_commands commands)
        s
