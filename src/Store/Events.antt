-- ===== src/Store/Events.antt =====
-- Fleet events of crates/maxops-store/src/lib.rs: `ingest_alert`, `append_fleet_event`,
-- `insert_fleet_event`, `validate_event_identity`, `get_event`, `event_for_host`,
-- `event_for_job_kind` and `prune_events_through`. New identifiers are arguments.
pub mod Paging
pub mod Order
pub mod Resume
pub mod Episodes
use maxops.Prelude.{
  ℕ, suc, String, Bool, true, false, not, ◌&&◌, ◌||◌, Option, none, some, List, [], ◌∷◌, ◌++◌, ok,
  ◌>>=◌, ◌>>◌, ensure, ok_or, leb, ◌==◌, str_eq, if◌then◌else◌, find?, upsert, delete_where,
  count_where, is_some,
}
use maxops.Proto.Ids.{JobId, ChangeId, EventId, EpisodeId}
use maxops.Proto.Json.{Value}
use maxops.Proto.Jobs.{Timestamp}
use maxops.Proto.EventKind
use maxops.Proto.EventKind.{EventKind}
use maxops.Proto.Events.{EventRecord}
use maxops.Proto.Names.{bounded, valid_host}
use maxops.Store.Canonical.{canonical_json}
use maxops.Store.Db.{Db, EpisodeRow}
use maxops.Store.Errors.{
  Outcome, constraint, invalid_event_source, invalid_event_fingerprint, invalid_event_host,
  event_not_found, to_i64, transact,
}
use maxops.Store.Jobs.{find_job}
use maxops.Store.Changes.{find_change}

pub record AlertEventInput : Type 0 where
  pub source : String
  pub fingerprint : String
  pub host : String
  pub firing : Bool
  pub occurred_at : Timestamp
  pub payload : Value

pub record NewFleetEvent : Type 0 where
  pub source : String
  pub fingerprint : String
  pub episode_id : EpisodeId
  pub kind : EventKind
  pub host : String
  pub occurred_at : Timestamp
  pub related_job_id : Option JobId
  pub related_change_id : Option ChangeId
  pub payload : Value

unfoldable pub validate_event_identity : String → String → String → Outcome (Unit {0})
validate_event_identity source fingerprint host = do
  ensure (bounded 128 source) invalid_event_source
  ensure (bounded 512 fingerprint) invalid_event_fingerprint
  ensure (valid_host host) invalid_event_host

-- `WHERE id = ?`
abbrev pub is_event : EventId → EventRecord → Bool
is_event id e = str_eq e.event_id id

unfoldable pub find_event : Db → EventId → Option EventRecord
find_event db id = find? (is_event id) db.events

abbrev pub event_row : ℕ → EventId → NewFleetEvent → Timestamp → EventRecord
event_row sequence id input received_at = record {
  sequence = sequence;
  event_id = id;
  source = input.source;
  fingerprint = input.fingerprint;
  episode_id = input.episode_id;
  kind = input.kind;
  host = input.host;
  occurred_at = input.occurred_at;
  received_at = received_at;
  related_job_id = input.related_job_id;
  related_change_id = input.related_change_id;
  payload = canonical_json input.payload;
}

abbrev pub with_event : EventId → NewFleetEvent → Timestamp → Db → Db
with_event id input received_at db = record db {
  events = db.events ++ event_row (suc db.event_sequence) id input received_at ∷ [];
  event_sequence = suc db.event_sequence;
}

-- A reference that the schema accepts: none, or one to a row that is there.
abbrev pub refers_to_job : Db → Option JobId → Bool
refers_to_job db none = true
refers_to_job db (some id) = is_some (find_job db id)

abbrev pub refers_to_change : Db → Option ChangeId → Bool
refers_to_change db none = true
refers_to_change db (some id) = is_some (find_change db id)

-- The schema refuses an identifier in use and a reference to no row.
unfoldable pub insert_fleet_event : EventId → NewFleetEvent → Timestamp → Db → Outcome Db
insert_fleet_event id input received_at db = do
  ensure
      (not (is_some (find_event db id))
        && refers_to_job db input.related_job_id
        && refers_to_change db input.related_change_id)
      constraint
  ok (with_event id input received_at db)

unfoldable pub get_event : Db → EventId → Outcome EventRecord
get_event db id = ok_or (find_event db id) event_not_found

unfoldable pub event_for_host : Db → EventId → String → Outcome EventRecord
event_for_host db id host = do
  event ← get_event db id
  ensure (str_eq event.host host) event_not_found
  ok event

abbrev related_to : JobId → EventKind → EventRecord → Bool
related_to job_id kind e =
    elim e.related_job_id [ none ↦ false | some id ↦ str_eq id job_id ] && EventKind.eq e.kind kind

-- `ORDER BY sequence LIMIT 1`: rows stand in the order of their numbers.
unfoldable pub event_for_job_kind : Db → JobId → EventKind → Option EventRecord
event_for_job_kind db job_id kind = find? (related_to job_id kind) db.events

unfoldable pub append_fleet_event :
    EventId → Timestamp → NewFleetEvent → Db → Db × Outcome EventRecord
append_fleet_event id at input db =
    transact db
      (do
        validate_event_identity input.source input.fingerprint input.host
        db' ← insert_fleet_event id input at db
        ok (db', tt {0}))
      (λ db' u. get_event db' id)

-- `WHERE source = ? AND fingerprint = ? AND host = ?`
abbrev pub is_episode : String → String → String → EpisodeRow → Bool
is_episode source fingerprint host r =
    str_eq r.source source && str_eq r.fingerprint fingerprint && str_eq r.host host

unfoldable pub find_episode : Db → AlertEventInput → Option EpisodeRow
find_episode db input = find? (is_episode input.source input.fingerprint input.host) db.episodes

-- An alert that fires on an active episode and one that is resolved belong to the episode of the
-- last alert; any other opens the episode `fresh`.
unfoldable pub episode_of : EpisodeId → Bool → Option EpisodeRow → EpisodeId
episode_of fresh firing none = fresh
episode_of fresh firing (some row) =
    if firing && row.active then row.episode_id else if not firing then row.episode_id else fresh

abbrev pub episode_row : EpisodeId → Timestamp → AlertEventInput → EpisodeRow
episode_row episode_id received_at input = record {
  source = input.source;
  fingerprint = input.fingerprint;
  host = input.host;
  episode_id = episode_id;
  active = input.firing;
  last_received_at = received_at;
}

abbrev pub reopen : EpisodeId → Bool → Timestamp → EpisodeRow → EpisodeRow
reopen episode_id firing received_at r = record r {
  episode_id = episode_id;
  active = firing;
  last_received_at = received_at;
}

abbrev pub with_episode : EpisodeId → Timestamp → AlertEventInput → Db → Db
with_episode episode_id received_at input db = record db {
  episodes =
      upsert (is_episode input.source input.fingerprint input.host)
        (reopen episode_id input.firing received_at) (episode_row episode_id received_at input)
        db.episodes;
}

abbrev pub alert_event : EpisodeId → AlertEventInput → NewFleetEvent
alert_event episode_id input = record {
  source = input.source;
  fingerprint = input.fingerprint;
  episode_id = episode_id;
  kind = if input.firing then EventKind.alert_firing else EventKind.alert_resolved;
  host = input.host;
  occurred_at = input.occurred_at;
  related_job_id = none;
  related_change_id = none;
  payload = input.payload;
}

unfoldable pub ingest_tx :
    EpisodeId → EventId → Timestamp → AlertEventInput → Db → Outcome (Db × Unit {0})
ingest_tx fresh id received_at input db =
    let episode_id = episode_of fresh input.firing (find_episode db input) in
    do
      validate_event_identity input.source input.fingerprint input.host
      db' ←
          insert_fleet_event id (alert_event episode_id input) received_at
            (with_episode episode_id received_at input db)
      ok (db', tt {0})

unfoldable pub ingest_alert :
    EpisodeId → EventId → Timestamp → AlertEventInput → Db → Db × Outcome EventRecord
ingest_alert fresh id received_at input db =
    transact db (ingest_tx fresh id received_at input db) (λ db' u. get_event db' id)

-- The number of rows deleted. Their deliveries go with them; the schema refuses to delete an event
-- that a remediation refers to.
unfoldable pub prune_events_through : ℕ → Db → Db × Outcome ℕ
prune_events_through sequence db =
    transact db
      (do
        n ← to_i64 sequence
        ensure
            (count_where
                (λ r.
                  is_some (find? (λ e. leb e.sequence n && str_eq e.event_id r.event_id) db.events))
                db.remediations
              == 0)
            constraint
        ok (
          record db {
            events = delete_where (λ e. leb e.sequence n) db.events;
            deliveries = delete_where (λ d. leb d.event_sequence n) db.deliveries;
          },
          count_where (λ e. leb e.sequence n) db.events,
        ))
      (λ db' n. ok n)
