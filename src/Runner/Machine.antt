-- ===== src/Runner/Machine.antt =====
-- The host that crates/maxops-executor/src/bin/maxops-deploy-runner.rs runs on, as parameters: the
-- file system, the programs it starts, the clock and the hash of BLAKE3. `S` is the state of the
-- host. Starting a program and sleeping change it; a read does not. A path is a UTF-8 text.
use maxops.Prelude.{ℕ, Bool, String, Option, List, Result}
use maxops.Prelude.Programs.{Program}
use maxops.Proto.Jobs.{Timestamp}

-- `env_clear`, or the variables that `deployment_command` sets.
pub data Environment : Type 0 where
  cleared deployment : Environment

pub record Command : Type 0 where
  pub program : String
  pub arguments : List String
  pub environment : Environment

-- What a finished program leaves: `success` and `status` of the `ExitStatus`, the length in bytes
-- and the decoded text of its output, and the same of its errors.
pub record Output : Type 0 where
  pub success : Bool
  pub status : String
  pub stdout_len : ℕ
  pub stdout : Result String String
  pub stderr_len : ℕ
  pub stderr : String

pub record Machine (S : Type 0) : Type 0 where
  -- Starts a program and waits for it; the error is the one of a failed start.
  pub start : Command → Program S String Output
  pub sleep : ℕ → S → S
  pub read_link : S → String → Option String
  pub canonicalize : S → String → Option String
  pub exists : S → String → Bool
  pub read_text : S → String → Option String
  pub read_bytes : S → String → Result String (List ℕ)
  pub blake3_hex : List ℕ → String
  pub now : S → Timestamp
