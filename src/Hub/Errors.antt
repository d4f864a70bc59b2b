-- ===== src/Hub/Errors.antt =====
-- The errors of crates/maxops-hub/src/lib.rs: `ApiError`, an error of the store, and a message.
use maxops.Prelude.{ℕ, Bool, ◌||◌, ◌&&◌, ◌==◌, leb, String, Result, err, false}
use maxops.Store.Errors.{
  StoreError, event_cursor_expired, active_for_episode, active_for_host, attempts_exhausted,
  cooldown_active, remediation_terminal, invalid_idempotency_key, idempotency_conflict,
  job_revision_changed, change_revision_changed, workspace_revision_changed,
  remediation_revision_changed, workflow_ownership_changed, workflow_not_running,
  change_owned_by_workflow, change_not_found, workspace_not_found, event_not_found,
  remediation_not_found, job_not_found, subscription_not_found, delivery_not_found,
}

pub record ApiError : Type 0 where
  pub status : ℕ
  pub message : String

abbrev pub api_error : ℕ → String → ApiError
api_error status message = record { status = status; message = message }

-- The tests of the code are on the message of the error; this is the case of each message.
unfoldable pub map_store_error : StoreError → ApiError
map_store_error event_cursor_expired = api_error 410 "event cursor expired"
map_store_error active_for_episode = api_error 409 "remediation policy conflict"
map_store_error active_for_host = api_error 409 "remediation policy conflict"
map_store_error attempts_exhausted = api_error 409 "remediation policy conflict"
map_store_error cooldown_active = api_error 409 "remediation policy conflict"
map_store_error remediation_terminal = api_error 409 "remediation policy conflict"
map_store_error invalid_idempotency_key =
    api_error 409 "idempotency key conflicts with another request"
map_store_error idempotency_conflict =
    api_error 409 "idempotency key conflicts with another request"
map_store_error job_revision_changed = api_error 409 "change revision changed"
map_store_error change_revision_changed = api_error 409 "change revision changed"
map_store_error workspace_revision_changed = api_error 409 "change revision changed"
map_store_error remediation_revision_changed = api_error 409 "change revision changed"
map_store_error workflow_ownership_changed =
    api_error 409 "change is owned by a deployment workflow"
map_store_error workflow_not_running = api_error 409 "change is owned by a deployment workflow"
map_store_error change_owned_by_workflow = api_error 409 "change is owned by a deployment workflow"
map_store_error change_not_found = api_error 404 "change not found"
map_store_error workspace_not_found = api_error 404 "workspace not found"
map_store_error event_not_found = api_error 404 "event not found"
map_store_error remediation_not_found = api_error 404 "remediation not found"
map_store_error job_not_found = api_error 404 "job not found"
map_store_error subscription_not_found = api_error 404 "job not found"
map_store_error delivery_not_found = api_error 404 "job not found"
map_store_error _ = api_error 500 "durable job storage failed"

-- What a call of the hub fails with: an error of the store, an `ApiError`, or another message.
pub data HubError : Type 0 where
  store : StoreError → HubError
  api : ApiError → HubError
  report : String → HubError

abbrev pub reject {ℓ} : {A : Type ℓ} → ℕ → String → Result HubError A
reject status message = err (api (api_error status message))

-- `map_err(map_store_error)`
unfoldable pub as_api : HubError → HubError
as_api (store e) = api (map_store_error e)
as_api (api e) = api e
as_api (report text) = api (api_error 500 "durable job storage failed")

-- `is_server_error()` or `CONFLICT`
unfoldable pub may_retry : HubError → Bool
may_retry (api e) = leb 500 e.status && leb e.status 599 || e.status == 409
may_retry (store e) = false
may_retry (report text) = false
