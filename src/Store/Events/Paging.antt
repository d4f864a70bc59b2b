-- ===== src/Store/Events/Paging.antt =====
-- Pages of fleet events: `list_events` of crates/maxops-store/src/lib.rs. Each of its queries reads
-- the tables as they are when it runs, so that it takes one `Db` for each.
use maxops.Prelude.{
  take, ℕ, ◌-◌, max, String, Bool, true, false, ◌&&◌, ◌||◌, Option, none, some, List, [], ◌∷◌, ok,
  err, Result, ◌>>=◌, ◌>>◌, ensure, leb, ltb, ◌==◌, str_eq, if◌then◌else◌, length, find?,
  select_where, is_some,
}
use maxops.Proto.EventKind
use maxops.Proto.EventKind.{EventKind}
use maxops.Proto.Events.{EventRecord, EventsListParams, EventsListResponse, validate}
use maxops.Store.Db.{Db}
use maxops.Store.Errors.{
  Outcome, invalid_event_query, empty_host_scope, host_not_permitted, event_cursor_expired, to_i64,
}

-- The tables at the four queries: the least number, the last number given out, the page and the
-- largest number.
pub record Reads : Type 0 where
  pub minimum : Db
  pub latest : Db
  pub page : Db
  pub maximum : Db

abbrev pub at_once : Db → Reads
at_once db = record { minimum = db; latest = db; page = db; maximum = db }

-- `host IN (...)`
abbrev pub is_among : List String → String → Bool
is_among hosts host = is_some (find? (λ h. str_eq h host) hosts)

abbrev pub on_hosts : List String → EventRecord → Bool
on_hosts hosts e = is_among hosts e.host

abbrev is_none_of : List EventKind → Bool
is_none_of [] = true
is_none_of (_ ∷ _) = false

abbrev pub of_kinds : List EventKind → EventRecord → Bool
of_kinds kinds e = is_none_of kinds || is_some (find? (EventKind.eq e.kind) kinds)

abbrev pub is_wanted : ℕ → List String → List EventKind → EventRecord → Bool
is_wanted cursor hosts kinds e = ltb cursor e.sequence && (on_hosts hosts e && of_kinds kinds e)

-- `MIN(sequence)` and `MAX(sequence)`
unfoldable pub min_sequence : List EventRecord → Option ℕ
min_sequence [] = none
min_sequence (e ∷ es) = elim (min_sequence es) [
  | none ↦ some e.sequence
  | some n ↦ some (if leb e.sequence n then e.sequence else n)
]

unfoldable pub max_sequence : List EventRecord → Option ℕ
max_sequence [] = none
max_sequence (e ∷ es) = elim (max_sequence es) [
  | none ↦ some e.sequence
  | some n ↦ some (max e.sequence n)
]

-- `events.last().map(|event| event.sequence)`
unfoldable pub last_sequence : List EventRecord → ℕ → ℕ
last_sequence [] cursor = cursor
last_sequence (e ∷ es) cursor = last_sequence es e.sequence

abbrev pub hosts_of : List String → Option String → List String
hosts_of allowed none = allowed
hosts_of allowed (some host) = host ∷ []

abbrev permitted : List String → Option String → Bool
permitted allowed none = true
permitted allowed (some host) = is_among allowed host

abbrev not_empty : List String → Bool
not_empty [] = false
not_empty (_ ∷ _) = true

unfoldable pub earliest : List String → Db → Db → ℕ
earliest hosts db_minimum db_latest =
    elim (min_sequence (select_where (on_hosts hosts) db_minimum.events)) [
      | none ↦ db_latest.event_sequence
      | some n ↦ n - 1
    ]

-- Rows stand in the order of their numbers.
unfoldable pub page_of : ℕ → List String → List EventKind → ℕ → Db → List EventRecord
page_of cursor hosts kinds limit db =
    take limit (select_where (is_wanted cursor hosts kinds) db.events)

unfoldable pub next_cursor_of : ℕ → List String → ℕ → List EventRecord → Db → ℕ
next_cursor_of cursor hosts limit events db =
    if length events == limit
    then last_sequence events cursor
    else elim (max_sequence (select_where (on_hosts hosts) db.events)) [
      | none ↦ cursor
      | some n ↦ max n cursor
    ]

abbrev not_expired : Option ℕ → ℕ → Bool
not_expired none first = true
not_expired (some cursor) first = leb first cursor

abbrev pub start_of : Option ℕ → ℕ → ℕ
start_of none first = first
start_of (some cursor) first = cursor

abbrev as_outcome : Result String (Unit {0}) → Outcome (Unit {0})
as_outcome (ok u) = ok u
as_outcome (err message) = err invalid_event_query

unfoldable pub list_events : List String → EventsListParams → Reads → Outcome EventsListResponse
list_events allowed params reads =
    let hosts = hosts_of allowed params.host in
    let first = earliest hosts reads.minimum reads.latest in
    let cursor = start_of params.cursor first in
    do
      as_outcome (validate params)
      ensure (not_empty allowed) empty_host_scope
      ensure (permitted allowed params.host) host_not_permitted
      ensure (not_expired params.cursor first) event_cursor_expired
      n ← to_i64 cursor
      let events = page_of n hosts params.kinds params.limit reads.page
      ok (record {
        events = events;
        next_cursor = next_cursor_of cursor hosts params.limit events reads.maximum;
        earliest_cursor = first;
      })
