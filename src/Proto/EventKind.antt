-- ===== src/Proto/EventKind.antt =====
-- `EventKind` of crates/maxops-proto/src/events.rs.
use maxops.Prelude.{
  ℕ, Bool, true, ◌==◌, String, ◌≡◌, ◌↔◌, refl, arith, str_eq, eq_of_str_eq, Result, ok, err,
  if◌then◌else◌,
}

pub data EventKind : Type 0 where
  alert_firing alert_resolved diagnostic_collected remediation_started remediation_finished :
      EventKind

abbrev pub as_str : EventKind → String
as_str alert_firing = "alert_firing"
as_str alert_resolved = "alert_resolved"
as_str diagnostic_collected = "diagnostic_collected"
as_str remediation_started = "remediation_started"
as_str remediation_finished = "remediation_finished"

-- The error is the message.
unfoldable pub parse : String → Result String EventKind
parse value =
    if str_eq value "alert_firing"
    then ok alert_firing
    else if str_eq value "alert_resolved"
    then ok alert_resolved
    else if str_eq value "diagnostic_collected"
    then ok diagnostic_collected
    else if str_eq value "remediation_started"
    then ok remediation_started
    else if str_eq value "remediation_finished"
    then ok remediation_finished
    else err "invalid event kind"

abbrev index : EventKind → ℕ
index alert_firing = 0
index alert_resolved = 1
index diagnostic_collected = 2
index remediation_started = 3
index remediation_finished = 4

-- The derived `PartialEq`.
unfoldable pub eq : EventKind → EventKind → Bool
eq a b = index a == index b

pub eq_iff : (a b : EventKind) → (eq a b ≡ true) ↔ (a ≡ b)
unfolding eq
eq_iff a b = ground arith

parse_complete : (s : EventKind) → parse (as_str s) ≡ ok s
unfolding parse str_eq
parse_complete alert_firing = refl
parse_complete alert_resolved = refl
parse_complete diagnostic_collected = refl
parse_complete remediation_started = refl
parse_complete remediation_finished = refl

parse_sound : (value : String) (s : EventKind) → parse value ≡ ok s → value ≡ as_str s
unfolding parse
parse_sound value s h = ground (
  arith,
  eq_of_str_eq value "alert_firing",
  eq_of_str_eq value "alert_resolved",
  eq_of_str_eq value "diagnostic_collected",
  eq_of_str_eq value "remediation_started",
  eq_of_str_eq value "remediation_finished",
)

-- Reading gives `s` exactly for the text that `s` is written as.
pub parse-as_str : (value : String) (s : EventKind) → (parse value ≡ ok s) ↔ (value ≡ as_str s)
parse-as_str value s = (parse_sound value s, λ e. rw e (parse_complete s))
