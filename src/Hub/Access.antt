-- ===== src/Hub/Access.antt =====
-- What the hub's configuration permits: `host_for`, `repository_host`, `deployment_for`,
-- `idempotency_key` and `dispatch_authorized` of crates/maxops-hub/src/lib.rs. Sets and maps are
-- lists.
use Prim.Native.String.{len}
use maxops.Prelude.{
  Bool, true, false, not, ◌&&◌, ◌||◌, ltb, String, Option, none, some, List, [], ◌∷◌, Result, ok,
  err, ok_or, ensure, contains, ◌>>=◌, ◌>>◌, str_eq, codes, all_codes,
}
use maxops.Proto.Json.{Value, object, string}
use maxops.Proto.Jobs.{JobRecord}
use maxops.Proto.Names.{is_ascii_graphic, is_empty}
use maxops.Proto.Changes.{
  DeploymentAction, DeploymentKind, system, home, prepare, build, activate, verify, rollback,
}
use maxops.Proto.Deployments.{DeploymentJobSpec}
use maxops.Runner.Paths.{starts_with}
use maxops.Hub.Errors.{HubError, api, api_error}
use maxops.Hub.Refresh.{get_member}

pub data Access : Type 0 where
  observe manage : Access

pub record Host : Type 0 where
  pub manageable_units : List String

pub record Principal : Type 0 where
  pub name : String
  pub hosts : List String
  pub capabilities : List String
  pub access : Access
  pub repositories : List String
  pub deployments : List String

pub record DeploymentConfig : Type 0 where
  pub name : String
  pub repository : String
  pub builder_host : String
  pub target_host : String
  pub kind : DeploymentKind
  pub flake_attribute : String

pub record App : Type 0 where
  pub hosts : List (String × Host)
  pub clients : List Principal
  pub repositories : List (String × String)
  pub deployments : List (String × DeploymentConfig)

-- `BTreeMap::get`
unfoldable pub get {ℓ} : {A : Type ℓ} → List (String × A) → String → Option A
get [] key = none
get ((k, a) ∷ rest) key = elim (str_eq k key) [ true ↦ some a | false ↦ get rest key ]

abbrev pub forbidden : String → HubError
forbidden message = api (api_error 403 message)

unfoldable pub host_for : App → Principal → String → Result HubError Host
unfolding contains get
host_for app principal name = do
  ensure (contains principal.hosts name) (forbidden "host not permitted")
  ok_or (get app.hosts name) (forbidden "host not permitted")

unfoldable pub repository_host : App → Principal → String → Result HubError String
unfolding contains get
repository_host app principal repository = do
  ensure (contains principal.repositories repository) (forbidden "repository not permitted")
  host ← ok_or (get app.repositories repository) (forbidden "repository not permitted")
  found ← host_for app principal host
  ok host

unfoldable pub deployment_for : App → Principal → String → Result HubError DeploymentConfig
unfolding contains get
deployment_for app principal name = do
  ensure (contains principal.deployments name) (forbidden "deployment profile not permitted")
  deployment ← ok_or (get app.deployments name) (forbidden "deployment profile not permitted")
  host ← repository_host app principal deployment.repository
  found ← host_for app principal deployment.target_host
  ok deployment

-- From the values of the header: there is exactly one, and it is printable.
unfoldable pub idempotency_key : List String → Result HubError String
unfolding codes all_codes
idempotency_key (value ∷ []) = do
  ensure
      (not
        (is_empty value || ltb 128 (len value) || not (all_codes is_ascii_graphic (codes value))))
      (api (api_error 400 "invalid Idempotency-Key"))
  ok value
idempotency_key _ = err (api (api_error 400 "one Idempotency-Key header is required"))

abbrev has_prefix : String → String → Bool
has_prefix prefix text = starts_with (codes prefix) (codes text)

abbrev same_kind : DeploymentKind → DeploymentKind → Bool
same_kind system system = true
same_kind home home = true
same_kind _ _ = false

abbrev is_manage : Access → Bool
is_manage manage = true
is_manage observe = false

abbrev expected_host : DeploymentAction → DeploymentConfig → String
expected_host prepare deployment = deployment.builder_host
expected_host build deployment = deployment.builder_host
expected_host activate deployment = deployment.target_host
expected_host verify deployment = deployment.target_host
expected_host rollback deployment = deployment.target_host

-- `unit_of` reads the parameters of an action on a unit, and `spec_of` a deployment's
-- specification, from JSON; `capability_of` is the table of operations.
module _ (unit_of : Value → Option String) (spec_of : Value → Option DeploymentJobSpec)
    (capability_of : String → Option String) (app : App) (job : JobRecord) where
  target_still_allowed : Bool
  target_still_allowed = elim (has_prefix "units." job.operation) [
    | false ↦ true
    | true ↦ elim (unit_of job.spec) [
      | none ↦ false
      | some unit ↦ elim (get app.hosts job.host) [
        | none ↦ false
        | some host ↦ contains host.manageable_units unit
      ]
    ]
  ]

  repository_of : Value → Option String
  repository_of (object members) = elim (get_member "repository" members) [
    | some (string repository) ↦ some repository
    | _ ↦ none
  ]
  repository_of _ = none

  repository_still_allowed : Principal → Bool
  unfolding repository_of
  repository_still_allowed principal = elim (has_prefix "workspace." job.operation) [
    | false ↦ true
    | true ↦ elim (repository_of job.spec) [
      | none ↦ false
      | some repository ↦ elim (get app.repositories repository) [
        | none ↦ false
        | some host ↦ contains principal.repositories repository && str_eq host job.host
      ]
    ]
  ]

  deployment_matches : Principal → DeploymentJobSpec → DeploymentConfig → Bool
  deployment_matches principal spec deployment =
      contains principal.deployments deployment.name
      && contains principal.repositories deployment.repository
      && str_eq deployment.repository spec.plan.repository
      && str_eq deployment.target_host spec.plan.target_host
      && same_kind deployment.kind spec.plan.kind
      && str_eq deployment.flake_attribute spec.plan.flake_attribute
      && str_eq (expected_host spec.action deployment) job.host

  deployment_still_allowed : Principal → Bool
  unfolding deployment_matches
  deployment_still_allowed principal = elim (has_prefix "deploy." job.operation) [
    | false ↦ true
    | true ↦ elim (spec_of job.spec) [
      | none ↦ false
      | some spec ↦ elim (get app.deployments spec.plan.deployment_profile) [
        | none ↦ false
        | some deployment ↦ deployment_matches principal spec deployment
      ]
    ]
  ]

  has_capability : Principal → Option String → Bool
  has_capability principal none = false
  has_capability principal (some capability) = contains principal.capabilities capability

  unfoldable pub permits : Principal → Bool
  unfolding target_still_allowed repository_still_allowed deployment_still_allowed has_capability
  permits principal =
      str_eq principal.name job.principal
      && is_manage principal.access
      && has_capability principal (capability_of job.operation)
      && contains principal.hosts job.host
      && target_still_allowed
      && repository_still_allowed principal
      && deployment_still_allowed principal

  unfoldable pub any_permits : List Principal → Bool
  any_permits [] = false
  any_permits (principal ∷ clients) = permits principal || any_permits clients

  unfoldable pub dispatch_authorized : Bool
  unfolding any_permits
  dispatch_authorized = any_permits app.clients
