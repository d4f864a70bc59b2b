-- ===== src/Store/Db.antt =====
-- The tables of crates/maxops-store/migrations. A column holds the value that the code writes into
-- it through `as_str`, `to_string` or JSON and reads back through `from_str`, `parse` or JSON.
use maxops.Prelude.{ℕ, String, Bool, Option, List}
use maxops.Proto.Ids.{JobId, ChangeId, EpisodeId}
use maxops.Proto.Json.{Value}
use maxops.Proto.Jobs.{Timestamp, JobRecord, JobEvent}
use maxops.Proto.Changes.{ChangeRecord}
use maxops.Proto.Events.{EventRecord, RemediationRecord}
use maxops.Proto.Observations.{ResourceObservation}
use maxops.Proto.Workspaces.{WorkspaceRecord}
use maxops.Proto.DeliveryStage.{DeliveryStage}

-- PRIMARY KEY (principal, key)
pub record IdempotencyRow : Type 0 where
  pub principal : String
  pub key : String
  pub spec_hash : String
  pub job_id : JobId
  pub created_at : Timestamp

-- PRIMARY KEY (resource_kind, resource_key). `revision` is an `i64`, given by its 64 bits.
pub record ResourceRow : Type 0 where
  pub resource_kind : String
  pub resource_key : String
  pub owner_job_id : JobId
  pub revision : ℕ
  pub acquired_at : Timestamp

-- A row of `changes`: the columns that `row_to_change` does not read stand beside the record.
pub record ChangeRow : Type 0 where
  pub id : ChangeId
  pub host : String
  pub change : ChangeRecord
  pub open change use {creator, revision, state}
  pub created_at : Timestamp
  pub workflow_job_id : Option JobId

-- PRIMARY KEY (source, fingerprint, host)
pub record EpisodeRow : Type 0 where
  pub source : String
  pub fingerprint : String
  pub host : String
  pub episode_id : EpisodeId
  pub active : Bool
  pub last_received_at : Timestamp

pub record SubscriptionRow : Type 0 where
  pub id : String
  pub filter : Value
  pub target : Value
  pub credential_ref : Option String
  pub cursor : ℕ
  pub acknowledged_at : Option Timestamp
  pub created_at : Timestamp

-- PRIMARY KEY (subscription_id, event_sequence)
pub record DeliveryRow : Type 0 where
  pub subscription_id : String
  pub event_sequence : ℕ
  pub stage : DeliveryStage
  pub attempts : ℕ
  pub retry_at : Option Timestamp
  pub response_status : Option ℕ
  pub updated_at : Timestamp

-- `job_sequence`, `event_sequence` and `observation_sequence` are the last numbers that
-- AUTOINCREMENT gave out; rows of observations stand in the order of theirs.
pub record Db : Type 0 where
  pub jobs : List JobRecord
  pub idempotency : List IdempotencyRow
  pub job_events : List JobEvent
  pub job_sequence : ℕ
  pub resources : List ResourceRow
  pub workspaces : List WorkspaceRecord
  pub changes : List ChangeRow
  pub episodes : List EpisodeRow
  pub events : List EventRecord
  pub event_sequence : ℕ
  pub subscriptions : List SubscriptionRow
  pub deliveries : List DeliveryRow
  pub remediations : List RemediationRecord
  pub observations : List ResourceObservation
  pub observation_sequence : ℕ
