-- ===== src/Proto/RemediationState.antt =====
-- `RemediationState` of crates/maxops-proto/src/events.rs.
use maxops.Prelude.{
  ℕ, Bool, true, ◌==◌, String, ◌≡◌, ◌↔◌, refl, arith, str_eq, eq_of_str_eq, Result, ok, err,
  if◌then◌else◌,
}

pub data RemediationState : Type 0 where
  active succeeded failed no_action superseded : RemediationState

abbrev pub as_str : RemediationState → String
as_str active = "active"
as_str succeeded = "succeeded"
as_str failed = "failed"
as_str no_action = "no_action"
as_str superseded = "superseded"

-- The error is the message.
unfoldable pub parse : String → Result String RemediationState
parse value =
    if str_eq value "active"
    then ok active
    else if str_eq value "succeeded"
    then ok succeeded
    else if str_eq value "failed"
    then ok failed
    else if str_eq value "no_action"
    then ok no_action
    else if str_eq value "superseded"
    then ok superseded
    else err "invalid remediation state"

abbrev index : RemediationState → ℕ
index active = 0
index succeeded = 1
index failed = 2
index no_action = 3
index superseded = 4

-- The derived `PartialEq`.
unfoldable pub eq : RemediationState → RemediationState → Bool
eq a b = index a == index b

pub eq_iff : (a b : RemediationState) → (eq a b ≡ true) ↔ (a ≡ b)
unfolding eq
eq_iff a b = ground arith

parse_complete : (s : RemediationState) → parse (as_str s) ≡ ok s
unfolding parse str_eq
parse_complete active = refl
parse_complete succeeded = refl
parse_complete failed = refl
parse_complete no_action = refl
parse_complete superseded = refl

parse_sound : (value : String) (s : RemediationState) → parse value ≡ ok s → value ≡ as_str s
unfolding parse
parse_sound value s h = ground (
  arith,
  eq_of_str_eq value "active",
  eq_of_str_eq value "succeeded",
  eq_of_str_eq value "failed",
  eq_of_str_eq value "no_action",
  eq_of_str_eq value "superseded",
)

-- Reading gives `s` exactly for the text that `s` is written as.
pub parse-as_str :
    (value : String) (s : RemediationState) → (parse value ≡ ok s) ↔ (value ≡ as_str s)
parse-as_str value s = (parse_sound value s, λ e. rw e (parse_complete s))
