-- ===== src/Proto/ChangeState.antt =====
-- `ChangeState` of crates/maxops-proto/src/changes.rs: its texts and its transition table.
use maxops.Prelude.{
  ℕ, Bool, true, false, ◌==◌, String, ◌≡◌, ◌↔◌, refl, arith, str_eq, eq_of_str_eq, Result, ok, err,
  if◌then◌else◌,
}

pub data ChangeState : Type 0 where
  prepared checking building publishing ready activating verifying recovering succeeded rolled_back
        recovery_failed failed stale superseded outcome_unknown :
      ChangeState

abbrev pub as_str : ChangeState → String
as_str prepared = "prepared"
as_str checking = "checking"
as_str building = "building"
as_str publishing = "publishing"
as_str ready = "ready"
as_str activating = "activating"
as_str verifying = "verifying"
as_str recovering = "recovering"
as_str succeeded = "succeeded"
as_str rolled_back = "rolled_back"
as_str recovery_failed = "recovery_failed"
as_str failed = "failed"
as_str stale = "stale"
as_str superseded = "superseded"
as_str outcome_unknown = "outcome_unknown"

-- The error is the message.
unfoldable pub from_str : String → Result String ChangeState
from_str value =
    if str_eq value "prepared"
    then ok prepared
    else if str_eq value "checking"
    then ok checking
    else if str_eq value "building"
    then ok building
    else if str_eq value "publishing"
    then ok publishing
    else if str_eq value "ready"
    then ok ready
    else if str_eq value "activating"
    then ok activating
    else if str_eq value "verifying"
    then ok verifying
    else if str_eq value "recovering"
    then ok recovering
    else if str_eq value "succeeded"
    then ok succeeded
    else if str_eq value "rolled_back"
    then ok rolled_back
    else if str_eq value "recovery_failed"
    then ok recovery_failed
    else if str_eq value "failed"
    then ok failed
    else if str_eq value "stale"
    then ok stale
    else if str_eq value "superseded"
    then ok superseded
    else if str_eq value "outcome_unknown"
    then ok outcome_unknown
    else err "invalid change state"

unfoldable pub is_terminal : ChangeState → Bool
is_terminal succeeded = true
is_terminal rolled_back = true
is_terminal recovery_failed = true
is_terminal failed = true
is_terminal stale = true
is_terminal superseded = true
is_terminal outcome_unknown = true
is_terminal _ = false

unfoldable pub can_transition_to : ChangeState → ChangeState → Bool
can_transition_to checking prepared = true
can_transition_to checking failed = true
can_transition_to checking stale = true
can_transition_to checking outcome_unknown = true
can_transition_to prepared building = true
can_transition_to prepared stale = true
can_transition_to prepared failed = true
can_transition_to building publishing = true
can_transition_to building ready = true
can_transition_to building failed = true
can_transition_to building stale = true
can_transition_to building outcome_unknown = true
can_transition_to publishing ready = true
can_transition_to publishing failed = true
can_transition_to publishing stale = true
can_transition_to publishing outcome_unknown = true
can_transition_to ready activating = true
can_transition_to ready stale = true
can_transition_to ready failed = true
can_transition_to activating verifying = true
can_transition_to activating rolled_back = true
can_transition_to activating recovery_failed = true
can_transition_to activating failed = true
can_transition_to activating stale = true
can_transition_to activating superseded = true
can_transition_to activating outcome_unknown = true
can_transition_to verifying succeeded = true
can_transition_to verifying recovering = true
can_transition_to verifying rolled_back = true
can_transition_to verifying recovery_failed = true
can_transition_to verifying failed = true
can_transition_to verifying superseded = true
can_transition_to verifying outcome_unknown = true
can_transition_to succeeded recovering = true
can_transition_to recovering rolled_back = true
can_transition_to recovering recovery_failed = true
can_transition_to recovering superseded = true
can_transition_to recovering outcome_unknown = true
can_transition_to _ _ = false

pub ChangeState-discrete : Discrete ChangeState
ChangeState-discrete = hlevel

abbrev index : ChangeState → ℕ
index prepared = 0
index checking = 1
index building = 2
index publishing = 3
index ready = 4
index activating = 5
index verifying = 6
index recovering = 7
index succeeded = 8
index rolled_back = 9
index recovery_failed = 10
index failed = 11
index stale = 12
index superseded = 13
index outcome_unknown = 14

-- The derived `PartialEq`.
unfoldable pub eq : ChangeState → ChangeState → Bool
eq a b = index a == index b

pub eq_iff : (a b : ChangeState) → (eq a b ≡ true) ↔ (a ≡ b)
unfolding eq
eq_iff a b = ground arith

from_str_complete : (s : ChangeState) → from_str (as_str s) ≡ ok s
unfolding from_str str_eq
from_str_complete prepared = refl
from_str_complete checking = refl
from_str_complete building = refl
from_str_complete publishing = refl
from_str_complete ready = refl
from_str_complete activating = refl
from_str_complete verifying = refl
from_str_complete recovering = refl
from_str_complete succeeded = refl
from_str_complete rolled_back = refl
from_str_complete recovery_failed = refl
from_str_complete failed = refl
from_str_complete stale = refl
from_str_complete superseded = refl
from_str_complete outcome_unknown = refl

read_arm :
    (value text : String) (c s : ChangeState) (rest : Result String ChangeState)
    → (rest ≡ ok s → value ≡ as_str s)
    → text ≡ as_str c
    → (if str_eq value text then ok c else rest) ≡ ok s
    → value ≡ as_str s
read_arm value text c s rest hr ht h = ground (arith, eq_of_str_eq value text)

from_str_sound : (value : String) (s : ChangeState) → from_str value ≡ ok s → value ≡ as_str s
unfolding from_str
from_str_sound value s = λ h.
    read_arm value "prepared" prepared s _
      (λ h.
        read_arm value "checking" checking s _
          (λ h.
            read_arm value "building" building s _
              (λ h.
                read_arm value "publishing" publishing s _
                  (λ h.
                    read_arm value "ready" ready s _
                      (λ h.
                        read_arm value "activating" activating s _
                          (λ h.
                            read_arm value "verifying" verifying s _
                              (λ h.
                                read_arm value "recovering" recovering s _
                                  (λ h.
                                    read_arm value "succeeded" succeeded s _
                                      (λ h.
                                        read_arm value "rolled_back" rolled_back s _
                                          (λ h.
                                            read_arm value "recovery_failed" recovery_failed s _
                                              (λ h.
                                                read_arm value "failed" failed s _
                                                  (λ h.
                                                    read_arm value "stale" stale s _
                                                      (λ h.
                                                        read_arm value "superseded" superseded s _
                                                          (λ h.
                                                            read_arm value "outcome_unknown"
                                                            outcome_unknown s _ (λ h. cc) refl h)
                                                          refl h)
                                                      refl h)
                                                  refl h)
                                              refl h)
                                          refl h)
                                      refl h)
                                  refl h)
                              refl h)
                          refl h)
                      refl h)
                  refl h)
              refl h)
          refl h)
      refl h

-- Reading gives `s` exactly for the text that `s` is written as.
pub from_str-as_str :
    (value : String) (s : ChangeState) → (from_str value ≡ ok s) ↔ (value ≡ as_str s)
from_str-as_str value s = (from_str_sound value s, λ e. rw e (from_str_complete s))
