-- ===== src/Store/Clock.antt =====
-- What crates/maxops-store/src/lib.rs calls of the time library, as parameters: `checked_add` of a
-- number of seconds, `as_second`, and the order of the texts that the tables hold for two times.
use maxops.Prelude.{ℕ, Bool, Option}
use maxops.Proto.Jobs.{Timestamp}

-- `text_before a b` says that the text of `a` sorts before the text of `b`.
pub record Clock : Type 0 where
  pub checked_add : Timestamp → ℕ → Option Timestamp
  pub as_second : Timestamp → ℕ
  pub text_before : Timestamp → Timestamp → Bool
