-- ===== src/Tests/Events.antt =====
-- Examples for the store's fleet events.
use maxops.Prelude.{
  false, not, ◌&&◌, if◌then◌else◌, upsert, update_where, codes, all_codes, take, ℕ, String, ◌≡◌,
  refl, true, none, All, ◌<◌, count_where, delete_where, List, [], ◌∷◌, ◌++◌, ok, str_eq, arith,
  find?, select_where,
}
use maxops.Proto.Json.{object, end}
use maxops.Proto.EventKind.{EventKind}
use maxops.Proto.Events.{EventsListParams, EventsListResponse, validate}
use maxops.Proto.Names.{bounded, valid_host}
use maxops.Store.Db.{Db}
use maxops.Store.Errors.{to_i64, transact}
use maxops.Store.History.{no_rows}
use maxops.Store.Canonical.{canonical_json}
use maxops.Tests.Deliveries.{a_clock}
use maxops.Store.EventOrder.{
  EventOperation, run_events, HasOrderedEvents, run_events-HasOrderedEvents,
}
use maxops.Store.EventOrder.Pruning.{list_events-prune_events_through}
use maxops.Store.Events.Episodes.{ingest_alert-episode}
use maxops.Store.Events.{
  AlertEventInput, ingest_alert, ingest_tx, insert_fleet_event, validate_event_identity, get_event,
  find_event, prune_events_through, append_fleet_event, find_episode, episode_of, alert_event,
  NewFleetEvent, event_row, with_event,
}
use maxops.Store.Events.Paging.{
  at_once, is_wanted, list_events, min_sequence, max_sequence, last_sequence, earliest, page_of,
  next_cursor_of,
}
use maxops.Store.Events.Resume.{wanted, list_events-resumes, list_events-loses}

abbrev an_event : EventKind → NewFleetEvent
an_event kind = record {
  source = "alertmanager";
  fingerprint = "f1";
  episode_id = "e1";
  kind = kind;
  host = "host-a";
  occurred_at = 1;
  related_job_id = none;
  related_change_id = none;
  payload = object end;
}

abbrev two_events : Db
two_events =
    with_event "v2" (an_event EventKind.alert_resolved) 3
      (with_event "v1" (an_event EventKind.alert_firing) 2 no_rows)

abbrev hosts : List String
hosts = "host-a" ∷ "host-b" ∷ []

abbrev query : ℕ → EventsListParams
query limit = record { cursor = none; host = none; kinds = []; limit = limit }

abbrev first_page : EventsListResponse
first_page = record {
  events = event_row 1 "v1" (an_event EventKind.alert_firing) 2 ∷ [];
  next_cursor = 1;
  earliest_cursor = 0;
}

one_by_one : list_events hosts (query 1) (at_once two_events) ≡ ok first_page
unfolding list_events validate to_i64 min_sequence max_sequence take last_sequence earliest page_of
    next_cursor_of find? select_where str_eq canonical_json
one_by_one = refl

list_events-resumes_example :
    wanted hosts [] 0 two_events ≡ first_page.events ++ wanted hosts [] 1 two_events
list_events-resumes_example =
    list_events-resumes hosts (query 1) two_events ((omega arith, tt), (tt, tt)) one_by_one

abbrev lossy : EventsListResponse
lossy = record { events = two_events.events; next_cursor = 3; earliest_cursor = 0 }

abbrev after_third : Db
after_third = with_event "v3" (an_event EventKind.alert_firing) 4 two_events

raced :
    list_events hosts (query 5) (record (at_once two_events) { maximum = after_third }) ≡ ok lossy
unfolding list_events validate to_i64 min_sequence max_sequence take last_sequence earliest page_of
    next_cursor_of find? select_where str_eq canonical_json
raced = refl

third_wanted : is_wanted 0 hosts [] (event_row 3 "v3" (an_event EventKind.alert_firing) 4) ≡ true
unfolding find? str_eq
third_wanted = refl

list_events-loses_example :
    (wanted hosts [] 0 after_third
      ≡ lossy.events ++ event_row 3 "v3" (an_event EventKind.alert_firing) 4 ∷ [])
    × (wanted hosts [] 3 after_third ≡ [])
list_events-loses_example =
    list_events-loses hosts (query 5) two_events "v3" (an_event EventKind.alert_firing) 4 raced refl
      third_wanted

abbrev writes : List EventOperation
writes =
    EventOperation.append "v1" 2 (an_event EventKind.alert_firing)
    ∷ EventOperation.append "v2" 3 (an_event EventKind.alert_resolved)
    ∷ []

abbrev written : Db
written = run_events a_clock writes no_rows

written_ordered : HasOrderedEvents written
written_ordered =
    run_events-HasOrderedEvents a_clock writes no_rows (record { ordered = tt; given_out = tt })

first_deleted : (prune_events_through 1 written).1 ≡ ok 1
unfolding prune_events_through append_fleet_event insert_fleet_event validate_event_identity
    transact to_i64 find_event get_event find? count_where delete_where str_eq bounded codes
    all_codes valid_host canonical_json
first_deleted = refl

abbrev later_page : EventsListResponse
later_page = record {
  events = event_row 2 "v2" (an_event EventKind.alert_resolved) 3 ∷ [];
  next_cursor = 2;
  earliest_cursor = 1;
}

read_after :
    list_events hosts (query 5) (at_once (prune_events_through 1 written).0) ≡ ok later_page
unfolding list_events validate min_sequence max_sequence last_sequence earliest page_of
    next_cursor_of take select_where prune_events_through append_fleet_event insert_fleet_event
    validate_event_identity transact to_i64 find_event get_event find? count_where delete_where
    str_eq bounded codes all_codes valid_host canonical_json
read_after = refl

list_events-prune_events_through_example :
    let left = (prune_events_through 1 written).0 in
    (wanted hosts [] 1 written ≡ later_page.events ++ wanted hosts [] 2 left)
    × All (λ e. 1 < e.sequence) left.events
    × All (λ m. find_event left m.event_id ≡ find_event written m.event_id) written.remediations
list_events-prune_events_through_example =
    list_events-prune_events_through 1 written hosts (query 5) written_ordered first_deleted
      read_after

abbrev firing : AlertEventInput
firing = record {
  source = "alertmanager";
  fingerprint = "f1";
  host = "host-a";
  firing = true;
  occurred_at = 1;
  payload = object end;
}

abbrev resolved : AlertEventInput
resolved = record firing { firing = false; occurred_at = 5 }

abbrev after_firing : Db
after_firing = (ingest_alert "e1" "v1" 2 firing no_rows).0

fired :
    (ingest_alert "e1" "v1" 2 firing no_rows).1 ≡ ok (event_row 1 "v1" (alert_event "e1" firing) 2)
unfolding ingest_alert ingest_tx insert_fleet_event validate_event_identity get_event find_event
    find_episode episode_of transact find? upsert str_eq bounded valid_host codes all_codes
    canonical_json
fired = refl

ended :
    (ingest_alert "e2" "v2" 6 resolved after_firing).1
    ≡ ok (event_row 2 "v2" (alert_event "e1" resolved) 6)
unfolding ingest_alert ingest_tx insert_fleet_event validate_event_identity get_event find_event
    find_episode episode_of transact find? upsert update_where str_eq bounded valid_host codes
    all_codes canonical_json
ended = refl

ingest_alert-episode_example : (event_row 2 "v2" (alert_event "e1" resolved) 6).episode_id ≡ (
    if resolved.firing && not firing.firing
    then "e2"
    else (event_row 1 "v1" (alert_event "e1" firing) 2).episode_id)
ingest_alert-episode_example =
    ingest_alert-episode "e1" "e2" "v1" "v2" 2 6 firing resolved no_rows refl refl refl fired ended
