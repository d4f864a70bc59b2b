-- ===== src/Hub/World.antt =====
-- What the handlers of crates/maxops-hub/src work on: the tables and everything outside, which the
-- executors and the other tasks change while the hub waits.
use maxops.Prelude.{ℕ, String, Option, ok, err}
use maxops.Prelude.Programs.{Program}
use maxops.Proto.Jobs.{Timestamp, ExecutorRequest, ExecutorResponse}
use maxops.Store.Db.{Db}
use maxops.Store.Errors.{Outcome}
use maxops.Hub.Errors.{HubError, as_api}
use maxops.Hub.Projection.{call_store}

pub record World (O : Type 0) : Type 0 where
  pub db : Db
  pub outside : O

-- `agent_request` sends a request to the executor of a host and waits: there is no response when
-- the request fails. `sleep` waits for a number of seconds.
pub record Fleet (O : Type 0) : Type 0 where
  pub agent_request : String → ExecutorRequest → World O → World O × Option ExecutorResponse
  pub sleep : ℕ → World O → World O
  pub now : World O → Timestamp

module _ {O : Type 0} (fleet : Fleet O) where
  open fleet use {now}

  -- A part that only works on the tables, with the time that it reads.
  unfoldable pub on_db {ℓ} :
      {A : Type ℓ} → (Timestamp → Program Db HubError A) → Program (World O) HubError A
  on_db part w = let r = part (now w) w.db in (record { db = r.0; outside = w.outside }, r.1)

  -- A read of the store.
  unfoldable pub query {ℓ} : {A : Type ℓ} → (Db → Outcome A) → Program (World O) HubError A
  query read = on_db (λ at db. call_store (db, read db))

  -- `map_err(map_store_error)`
  unfoldable pub mapped {ℓ} :
      {A : Type ℓ} → Program (World O) HubError A → Program (World O) HubError A
  mapped m w = let r = m w in (r.0, elim r.1 [ ok a ↦ ok a | err e ↦ err (as_api e) ])
