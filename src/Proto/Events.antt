-- ===== src/Proto/Events.antt =====
-- The records of fleet events and remediations (crates/maxops-proto/src/events.rs).
use maxops.Prelude.{
  ℕ, String, Bool, true, ◌&&◌, Option, none, some, List, leb, Result, ensure, ◌>>◌,
}
use maxops.Proto.Ids.{JobId, ChangeId, EventId, EpisodeId, RemediationId}
use maxops.Proto.Jobs.{Timestamp}
use maxops.Proto.Json.{Value}
use maxops.Proto.EventKind.{EventKind}
use maxops.Proto.Names.{valid_host}
use maxops.Proto.RemediationState.{RemediationState}

pub record EventRecord : Type 0 where
  pub sequence : ℕ
  pub event_id : EventId
  pub source : String
  pub fingerprint : String
  pub episode_id : EpisodeId
  pub kind : EventKind
  pub host : String
  pub occurred_at : Timestamp
  pub received_at : Timestamp
  pub related_job_id : Option JobId
  pub related_change_id : Option ChangeId
  pub payload : Value

pub record EventsListParams : Type 0 where
  pub cursor : Option ℕ
  pub host : Option String
  pub kinds : List EventKind
  pub limit : ℕ

pub record EventsListResponse : Type 0 where
  pub events : List EventRecord
  pub next_cursor : ℕ
  pub earliest_cursor : ℕ

abbrev valid_if_some : Option String → Bool
valid_if_some none = true
valid_if_some (some host) = valid_host host

-- `EventsListParams::validate`
unfoldable pub validate : EventsListParams → Result String (Unit {0})
validate p = do
  ensure (leb 1 p.limit && leb p.limit 200) "event list limit must be 1..200"
  ensure (valid_if_some p.host) "invalid host"

pub record RemediationRecord : Type 0 where
  pub remediation_id : RemediationId
  pub event_id : EventId
  pub episode_id : EpisodeId
  pub host : String
  pub principal : String
  pub attempt : ℕ
  pub revision : ℕ
  pub state : RemediationState
  pub started_at : Timestamp
  pub finished_at : Option Timestamp
  pub related_job_id : Option JobId
  pub related_change_id : Option ChangeId
  pub summary : Option String
