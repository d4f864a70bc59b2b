-- ===== src/Proto/Observations.antt =====
-- Observations of resources (crates/maxops-proto/src/observations.rs).
use maxops.Prelude.{◌≡◌, refl, String, Option, Result, ok, err, str_eq, if◌then◌else◌}
use maxops.Proto.Json.{Value}
use maxops.Proto.Jobs.{Timestamp}

pub data ResourceKind : Type 0 where
  git_ref running_system persistent_profile home_profile unit : ResourceKind

pub record ResourceObservation : Type 0 where
  pub resource_kind : ResourceKind
  pub resource_key : String
  pub observed_at : Timestamp
  pub value : Value
  pub evidence : String
  pub related_change_id : Option String

abbrev pub as_str : ResourceKind → String
as_str git_ref = "git_ref"
as_str running_system = "running_system"
as_str persistent_profile = "persistent_profile"
as_str home_profile = "home_profile"
as_str unit = "unit"

-- The error is the message.
unfoldable parse : String → Result String ResourceKind
parse value =
    if str_eq value "git_ref"
    then ok git_ref
    else if str_eq value "running_system"
    then ok running_system
    else if str_eq value "persistent_profile"
    then ok persistent_profile
    else if str_eq value "home_profile"
    then ok home_profile
    else if str_eq value "unit"
    then ok unit
    else err "invalid observation resource kind"

-- A row is read back as the kind that was written.
parse-as_str : (kind : ResourceKind) → parse (as_str kind) ≡ ok kind
unfolding parse str_eq
parse-as_str git_ref = refl
parse-as_str running_system = refl
parse-as_str persistent_profile = refl
parse-as_str home_profile = refl
parse-as_str unit = refl
