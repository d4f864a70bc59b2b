-- ===== src/Proto/WorkspaceState.antt =====
-- `WorkspaceState` of crates/maxops-proto/src/workspaces.rs.
use maxops.Prelude.{
  ℕ, Bool, true, ◌==◌, String, ◌≡◌, ◌↔◌, refl, arith, str_eq, eq_of_str_eq, Result, ok, err,
  if◌then◌else◌,
}

pub data WorkspaceState : Type 0 where
  clean dirty committed published : WorkspaceState

abbrev pub as_str : WorkspaceState → String
as_str clean = "clean"
as_str dirty = "dirty"
as_str committed = "committed"
as_str published = "published"

-- The error is the message.
unfoldable pub from_str : String → Result String WorkspaceState
from_str value =
    if str_eq value "clean"
    then ok clean
    else if str_eq value "dirty"
    then ok dirty
    else if str_eq value "committed"
    then ok committed
    else if str_eq value "published"
    then ok published
    else err "invalid workspace state"

abbrev index : WorkspaceState → ℕ
index clean = 0
index dirty = 1
index committed = 2
index published = 3

-- The derived `PartialEq`.
unfoldable pub eq : WorkspaceState → WorkspaceState → Bool
eq a b = index a == index b

pub eq_iff : (a b : WorkspaceState) → (eq a b ≡ true) ↔ (a ≡ b)
unfolding eq
eq_iff a b = ground arith

from_str_complete : (s : WorkspaceState) → from_str (as_str s) ≡ ok s
unfolding from_str str_eq
from_str_complete clean = refl
from_str_complete dirty = refl
from_str_complete committed = refl
from_str_complete published = refl

from_str_sound : (value : String) (s : WorkspaceState) → from_str value ≡ ok s → value ≡ as_str s
unfolding from_str
from_str_sound value s h = ground (
  arith,
  eq_of_str_eq value "clean",
  eq_of_str_eq value "dirty",
  eq_of_str_eq value "committed",
  eq_of_str_eq value "published",
)

-- Reading gives `s` exactly for the text that `s` is written as.
pub from_str-as_str :
    (value : String) (s : WorkspaceState) → (from_str value ≡ ok s) ↔ (value ≡ as_str s)
from_str-as_str value s = (from_str_sound value s, λ e. rw e (from_str_complete s))
