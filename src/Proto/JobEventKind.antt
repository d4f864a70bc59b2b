-- ===== src/Proto/JobEventKind.antt =====
-- `JobEventKind` of crates/maxops-proto/src/events.rs.
use maxops.Prelude.{
  ℕ, Bool, true, ◌==◌, String, ◌≡◌, ◌↔◌, refl, arith, str_eq, eq_of_str_eq, Result, ok, err,
  if◌then◌else◌,
}

pub data JobEventKind : Type 0 where
  submitted state_changed cancel_requested reconciled : JobEventKind

abbrev pub as_str : JobEventKind → String
as_str submitted = "submitted"
as_str state_changed = "state_changed"
as_str cancel_requested = "cancel_requested"
as_str reconciled = "reconciled"

-- The error is the message.
unfoldable pub parse : String → Result String JobEventKind
parse value =
    if str_eq value "submitted"
    then ok submitted
    else if str_eq value "state_changed"
    then ok state_changed
    else if str_eq value "cancel_requested"
    then ok cancel_requested
    else if str_eq value "reconciled"
    then ok reconciled
    else err "invalid job event kind"

abbrev index : JobEventKind → ℕ
index submitted = 0
index state_changed = 1
index cancel_requested = 2
index reconciled = 3

-- The derived `PartialEq`.
unfoldable pub eq : JobEventKind → JobEventKind → Bool
eq a b = index a == index b

pub eq_iff : (a b : JobEventKind) → (eq a b ≡ true) ↔ (a ≡ b)
unfolding eq
eq_iff a b = ground arith

parse_complete : (s : JobEventKind) → parse (as_str s) ≡ ok s
unfolding parse str_eq
parse_complete submitted = refl
parse_complete state_changed = refl
parse_complete cancel_requested = refl
parse_complete reconciled = refl

parse_sound : (value : String) (s : JobEventKind) → parse value ≡ ok s → value ≡ as_str s
unfolding parse
parse_sound value s h = ground (
  arith,
  eq_of_str_eq value "submitted",
  eq_of_str_eq value "state_changed",
  eq_of_str_eq value "cancel_requested",
  eq_of_str_eq value "reconciled",
)

-- Reading gives `s` exactly for the text that `s` is written as.
pub parse-as_str : (value : String) (s : JobEventKind) → (parse value ≡ ok s) ↔ (value ≡ as_str s)
parse-as_str value s = (parse_sound value s, λ e. rw e (parse_complete s))
