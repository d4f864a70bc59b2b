-- ===== src/Proto/JobState.antt =====
-- `JobState` of crates/maxops-proto/src/jobs.rs: its texts and its transition table.
pub mod Graph
use maxops.Prelude.{
  ℕ, Bool, true, false, ◌==◌, String, ◌≡◌, ◌↔◌, refl, arith, str_eq, eq_of_str_eq, Result, ok, err,
  if◌then◌else◌,
}

pub data JobState : Type 0 where
  queued dispatching running reconciling succeeded failed cancelled timed_out outcome_unknown :
      JobState

abbrev pub as_str : JobState → String
as_str queued = "queued"
as_str dispatching = "dispatching"
as_str running = "running"
as_str reconciling = "reconciling"
as_str succeeded = "succeeded"
as_str failed = "failed"
as_str cancelled = "cancelled"
as_str timed_out = "timed_out"
as_str outcome_unknown = "outcome_unknown"

-- The error is the message.
unfoldable pub from_str : String → Result String JobState
from_str value =
    if str_eq value "queued"
    then ok queued
    else if str_eq value "dispatching"
    then ok dispatching
    else if str_eq value "running"
    then ok running
    else if str_eq value "reconciling"
    then ok reconciling
    else if str_eq value "succeeded"
    then ok succeeded
    else if str_eq value "failed"
    then ok failed
    else if str_eq value "cancelled"
    then ok cancelled
    else if str_eq value "timed_out"
    then ok timed_out
    else if str_eq value "outcome_unknown"
    then ok outcome_unknown
    else err "invalid job state"

unfoldable pub is_terminal : JobState → Bool
is_terminal succeeded = true
is_terminal failed = true
is_terminal cancelled = true
is_terminal timed_out = true
is_terminal outcome_unknown = true
is_terminal _ = false

unfoldable pub can_transition_to : JobState → JobState → Bool
can_transition_to queued dispatching = true
can_transition_to queued failed = true
can_transition_to queued cancelled = true
can_transition_to queued timed_out = true
can_transition_to dispatching running = true
can_transition_to dispatching reconciling = true
can_transition_to dispatching succeeded = true
can_transition_to dispatching failed = true
can_transition_to dispatching cancelled = true
can_transition_to dispatching timed_out = true
can_transition_to running reconciling = true
can_transition_to running succeeded = true
can_transition_to running failed = true
can_transition_to running cancelled = true
can_transition_to running timed_out = true
can_transition_to reconciling running = true
can_transition_to reconciling succeeded = true
can_transition_to reconciling failed = true
can_transition_to reconciling cancelled = true
can_transition_to reconciling timed_out = true
can_transition_to reconciling outcome_unknown = true
can_transition_to outcome_unknown succeeded = true
can_transition_to outcome_unknown failed = true
can_transition_to outcome_unknown cancelled = true
can_transition_to outcome_unknown timed_out = true
can_transition_to _ _ = false

pub JobState-discrete : Discrete JobState
JobState-discrete = hlevel

abbrev index : JobState → ℕ
index queued = 0
index dispatching = 1
index running = 2
index reconciling = 3
index succeeded = 4
index failed = 5
index cancelled = 6
index timed_out = 7
index outcome_unknown = 8

-- The derived `PartialEq`.
unfoldable pub eq : JobState → JobState → Bool
eq a b = index a == index b

pub eq_iff : (a b : JobState) → (eq a b ≡ true) ↔ (a ≡ b)
unfolding eq
eq_iff a b = ground arith

from_str_complete : (s : JobState) → from_str (as_str s) ≡ ok s
unfolding from_str str_eq
from_str_complete queued = refl
from_str_complete dispatching = refl
from_str_complete running = refl
from_str_complete reconciling = refl
from_str_complete succeeded = refl
from_str_complete failed = refl
from_str_complete cancelled = refl
from_str_complete timed_out = refl
from_str_complete outcome_unknown = refl

from_str_sound : (value : String) (s : JobState) → from_str value ≡ ok s → value ≡ as_str s
unfolding from_str
from_str_sound value s h = ground (
  arith,
  eq_of_str_eq value "queued",
  eq_of_str_eq value "dispatching",
  eq_of_str_eq value "running",
  eq_of_str_eq value "reconciling",
  eq_of_str_eq value "succeeded",
  eq_of_str_eq value "failed",
  eq_of_str_eq value "cancelled",
  eq_of_str_eq value "timed_out",
  eq_of_str_eq value "outcome_unknown",
)

-- Reading gives `s` exactly for the text that `s` is written as.
pub from_str-as_str : (value : String) (s : JobState) → (from_str value ≡ ok s) ↔ (value ≡ as_str s)
from_str-as_str value s = (from_str_sound value s, λ e. rw e (from_str_complete s))
