-- ===== src/Store/Events/Resume.antt =====
-- Reading page after page with the cursor of `list_events` of crates/maxops-store/src/lib.rs,
-- when the tables stay as they are during a call and when they do not.
use mathlib.Core.List.{append-nil}
use maxops.Prelude.{
  take, ℕ, suc, max, String, ◌≡◌, sym, ap, ◌∙◌, Bool-cases, true, false, ◌&&◌, Option-cases, List,
  [], ◌∷◌, ◌++◌, ok, inl, inr, arith, ◌==◌, length, select_where, select_where-append,
}
use maxops.Proto.Ids.{EventId}
use maxops.Proto.Jobs.{Timestamp}
use maxops.Proto.EventKind.{EventKind}
use maxops.Proto.Events.{EventRecord, EventsListParams, EventsListResponse}
use maxops.Store.Db.{Db}
use maxops.Store.Errors.{to_i64}
use maxops.Store.Events.{NewFleetEvent, event_row, with_event}
use maxops.Store.Events.Paging.{
  Reads, at_once, on_hosts, of_kinds, is_wanted, max_sequence, hosts_of, start_of, page_of,
  next_cursor_of, list_events,
}
use maxops.Store.Events.Order.{IsOrdered, past_page, take-short, past-max}

-- What a successful call replies.
replied :
    (allowed : List String) (params : EventsListParams) (reads : Reads) {r : EventsListResponse}
    → list_events allowed params reads ≡ ok r
    → let hosts = hosts_of allowed params.host in
      let cursor = start_of params.cursor r.earliest_cursor in
      (r.events ≡ page_of cursor hosts params.kinds params.limit reads.page)
      × (r.next_cursor ≡ next_cursor_of cursor hosts params.limit r.events reads.maximum)
unfolding list_events to_i64
replied allowed params reads h = (ground (arith, h), ground (arith, h))

-- The events that a call from the cursor `c` is about.
abbrev pub wanted : List String → List EventKind → ℕ → Db → List EventRecord
wanted hosts kinds c db = select_where (is_wanted c hosts kinds) db.events

module _ (hosts : List String) (kinds : List EventKind) (cursor limit : ℕ) where
  exhausted :
      (events : List EventRecord) (db : Db)
      → (length events == limit) ≡ false
      → wanted hosts kinds (next_cursor_of cursor hosts limit events db) db ≡ []
  unfolding next_cursor_of
  exhausted events db short =
      elim (Option-cases (max_sequence (select_where (on_hosts hosts) db.events))) [
        | inl z ↦
            rw short (rw z (past-max (on_hosts hosts) (of_kinds kinds) cursor db.events (rw z tt)))
        | inr (n, z) ↦ rw short (
            rw z (
              past-max (on_hosts hosts) (of_kinds kinds) (max n cursor) db.events
                (rw z (omega arith))))
      ]

  next_page :
      (db : Db)
      → IsOrdered db.events
      → let page = page_of cursor hosts kinds limit db in
        wanted hosts kinds cursor db
        ≡ page ++ wanted hosts kinds (next_cursor_of cursor hosts limit page db) db
  unfolding page_of next_cursor_of
  next_page db o = elim (Bool-cases (length (take limit (wanted hosts kinds cursor db)) == limit)) [
    | inl full ↦
        rw full (past_page (λ e. on_hosts hosts e && of_kinds kinds e) cursor limit db.events o)
    | inr short ↦
        let page = take limit (wanted hosts kinds cursor db) in
        sym (
          ap (λ es. page ++ es) (exhausted page db short)
          ∙ (append-nil page ∙ take-short limit (wanted hosts kinds cursor db) short))
  ]

-- When the tables stay as they are during a call that succeeds, the events of the reply followed by
-- those that its next cursor asks for are, in order, exactly those that its own cursor asked for:
-- no event is skipped and none comes twice, whatever the limit, the hosts and the kinds.
pub list_events-resumes :
    (allowed : List String) (params : EventsListParams) (db : Db) {r : EventsListResponse}
    → IsOrdered db.events
    → list_events allowed params (at_once db) ≡ ok r
    → let hosts = hosts_of allowed params.host in
      let cursor = start_of params.cursor r.earliest_cursor in
      wanted hosts params.kinds cursor db ≡ r.events ++ wanted hosts params.kinds r.next_cursor db
list_events-resumes allowed params db {r} o h =
    let (page, next) = replied allowed params (at_once db) h in
    let cursor = start_of params.cursor r.earliest_cursor in
    let hosts = hosts_of allowed params.host in
    rw next (rw page (next_page hosts params.kinds cursor params.limit db o))

-- When a wanted event is added after the page is read and before the largest number is, and the
-- page is not full, the reply lacks that event and its next cursor no longer asks for it: it is
-- all that is missing from the reply, and nothing is left for the next call.
pub list_events-loses :
    (allowed : List String) (params : EventsListParams) (db : Db) (id : EventId)
    (input : NewFleetEvent) (at : Timestamp) {r : EventsListResponse}
    → let row = event_row (suc db.event_sequence) id input at in
      let later = with_event id input at db in
      let hosts = hosts_of allowed params.host in
      list_events allowed params (record (at_once db) { maximum = later }) ≡ ok r
      → let cursor = start_of params.cursor r.earliest_cursor in
        (length r.events == params.limit) ≡ false
        → is_wanted cursor hosts params.kinds row ≡ true
        → (wanted hosts params.kinds cursor later ≡ r.events ++ row ∷ [])
          × (wanted hosts params.kinds r.next_cursor later ≡ [])
unfolding page_of select_where
list_events-loses allowed params db id input at {r} h short want =
    let row = event_row (suc db.event_sequence) id input at in
    let later = with_event id input at db in
    let (page, next) = replied allowed params (record (at_once db) { maximum = later }) h in
    let cursor = start_of params.cursor r.earliest_cursor in
    let hosts = hosts_of allowed params.host in
    (
      rw (select_where-append (is_wanted cursor hosts params.kinds) db.events (row ∷ [])) (
          rw want (
            ap (λ es. es ++ row ∷ [])
              (sym (
                page
                ∙ take-short params.limit (wanted hosts params.kinds cursor db)
                    (ground (arith, short, page)))))),
      rw next (exhausted hosts params.kinds cursor params.limit r.events later short),
    )
