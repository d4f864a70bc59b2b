-- ===== src/Store/EventOrder/Pruning.antt =====
-- Reading on after old events were deleted: `list_events` after `prune_events_through` of
-- crates/maxops-store/src/lib.rs.
use maxops.Prelude.{
  ℕ, ◌≤◌, ◌<◌, String, ◌≡◌, refl, sym, ap, ◌∙◌, Bool, Bool-cases, true, false, ◌&&◌, Option,
  Option-cases, none, some, List, [], ◌∷◌, ◌++◌, ok, inl, inr, arith, leb, str_eq, find?,
  delete_where, select_where, count_where, is_some, if◌then◌else◌, All,
}
use maxops.Proto.EventKind.{EventKind}
use maxops.Proto.Events.{EventRecord, EventsListParams, EventsListResponse, RemediationRecord}
use maxops.Store.Db.{Db}
use maxops.Store.Errors.{transact_ok, to_i64}
use maxops.Store.Events.{is_event, find_event, prune_events_through}
use maxops.Store.Events.Order.{IsOrdered}
use maxops.Store.Events.Paging.{
  at_once, on_hosts, is_wanted, min_sequence, hosts_of, start_of, earliest, list_events,
}
use maxops.Store.Events.Resume.{wanted, list_events-resumes}
use maxops.Store.EventOrder.{HasOrderedEvents, delete_where-IsOrdered}

abbrev is_old : ℕ → EventRecord → Bool
is_old n e = leb e.sequence n

abbrev pruned : ℕ → List EventRecord → List EventRecord
pruned n es = delete_where (is_old n) es

-- The rows that are left are past the number.
pruned-above : (n : ℕ) (es : List EventRecord) → All (λ e. n < e.sequence) (pruned n es)
unfolding delete_where
pruned-above n [] = tt
pruned-above n (e ∷ es) = elim (Bool-cases (is_old n e)) [
  | inl t ↦ rw t (pruned-above n es)
  | inr f ↦ rw f (ground (arith, f), pruned-above n es)
]

abbrev IsAbove : ℕ → Option ℕ → Type 0
IsAbove n none = Unit
IsAbove n (some m) = n < m

min-IsAbove :
    (n : ℕ) (p : EventRecord → Bool) (es : List EventRecord)
    → All (λ e. n < e.sequence) es
    → IsAbove n (min_sequence (select_where p es))
unfolding min_sequence select_where
min-IsAbove n p [] a = tt
min-IsAbove n p (e ∷ es) a = elim (Bool-cases (p e)) [
  | inr f ↦ rw f (min-IsAbove n p es a.1)
  | inl t ↦ elim (Option-cases (min_sequence (select_where p es))) [
    | inl z ↦ ground (arith, z, t, a.0)
    | inr (m, z) ↦ ground (arith, z, t, a.0, min-IsAbove n p es a.1)
  ]
]

-- Where a page may start at the earliest, no row that was deleted is wanted.
earliest-covers :
    (n : ℕ) (hosts : List String) (db latest : Db) (es : List EventRecord) (e : EventRecord)
    → db.events ≡ pruned n es
    → e.sequence ≤ latest.event_sequence
    → is_old n e ≡ true
    → e.sequence ≤ earliest hosts db latest
unfolding earliest
earliest-covers n hosts db latest es e left given old =
    let above = min-IsAbove n (on_hosts hosts) (pruned n es) (pruned-above n es) in
    elim (Option-cases (min_sequence (select_where (on_hosts hosts) (pruned n es)))) [
      | inl z ↦ ground (arith, left, z, given)
      | inr (m, z) ↦ ground (arith, left, z, above, old)
    ]

-- A selection that wants no row that is deleted is the same of the rows that are left.
select-delete_where :
    (p q : EventRecord → Bool) (es : List EventRecord)
    → All (λ e. q e ≡ true → p e ≡ false) es
    → select_where p es ≡ select_where p (delete_where q es)
unfolding select_where delete_where
select-delete_where p q [] a = refl
select-delete_where p q (e ∷ es) a = elim (Bool-cases (q e)) [
  | inl t ↦ rw (t, a.0 t) (select-delete_where p q es a.1)
  | inr f ↦ rw f (ap (λ xs. if p e then e ∷ xs else xs) (select-delete_where p q es a.1))
]

-- Nor is a search for a row that is not deleted.
find?-delete_where :
    (p q : EventRecord → Bool) (es : List EventRecord)
    → is_some (find? (λ e. q e && p e) es) ≡ false
    → find? p (delete_where q es) ≡ find? p es
unfolding find? delete_where
find?-delete_where p q [] h = refl
find?-delete_where p q (e ∷ es) h = ground (arith, h, find?-delete_where p q es)

All-map :
    (P Q : EventRecord → Type 0) (es : List EventRecord)
    → ((e : EventRecord) → P e → Q e)
    → All P es
    → All Q es
All-map P Q [] f a = tt
All-map P Q (e ∷ es) f a = (f e a.0, All-map P Q es f a.1)

unwanted :
    (n c : ℕ) (hosts : List String) (kinds : List EventKind) (e : EventRecord)
    → e.sequence ≤ c
    → is_wanted c hosts kinds e ≡ false
unwanted n c hosts kinds e h = ground (arith, h)

kept_events :
    (q : EventRecord → Bool) (es left : List EventRecord) (rs : List RemediationRecord)
    → left ≡ delete_where q es
    → count_where (λ r. is_some (find? (λ e. q e && is_event r.event_id e) es)) rs ≡ 0
    → All (λ r. find? (is_event r.event_id) left ≡ find? (is_event r.event_id) es) rs
unfolding count_where
kept_events q es left [] same free = tt
kept_events q es left (r ∷ rs) same free = (
  rw same (find?-delete_where (is_event r.event_id) q es (ground (arith, free))),
  kept_events q es left rs same (ground (arith, free)),
)

-- What a successful deletion leaves.
record Pruned (sequence : ℕ) (db db' : Db) : Type 0 where
  events : db'.events ≡ pruned sequence db.events
  given : db'.event_sequence ≡ db.event_sequence
  free :
      count_where
        (λ r.
          is_some (find? (λ e. leb e.sequence sequence && str_eq e.event_id r.event_id) db.events))
        db.remediations
      ≡ 0

prune_events_through-Pruned :
    (sequence : ℕ) (db : Db) {k : ℕ}
    → (prune_events_through sequence db).1 ≡ ok k
    → Pruned sequence db (prune_events_through sequence db).0
unfolding prune_events_through to_i64
prune_events_through-Pruned sequence db h =
    let (db', n, q, _, e) = transact_ok db _ _ h in
    record {
      events = ap (λ d. d.events) e ∙ ground (arith, q);
      given = ap (λ d. d.event_sequence) e ∙ ground (arith, q);
      free = ground (arith, q);
    }

-- When the cursor of a successful call is not below the earliest one, as the reply says.
started :
    (allowed : List String) (params : EventsListParams) (db : Db) {r : EventsListResponse}
    → list_events allowed params (at_once db) ≡ ok r
    → (r.earliest_cursor ≡ earliest (hosts_of allowed params.host) db db)
      × (r.earliest_cursor ≤ start_of params.cursor r.earliest_cursor)
unfolding list_events to_i64
started allowed params db h = (
  ground (arith, h),
  elim (Option-cases params.cursor) [
    | inl z ↦ ground (arith, h, z)
    | inr (c, z) ↦ ground (arith, h, z)
  ],
)

-- When events through a number have been deleted and a call of `list_events` is then answered, with
-- a cursor from before or with none, the client has missed nothing: the events that its cursor asks
-- for of the tables before the deletion are the events of the reply followed by those that the next
-- cursor asks for. No event up to the number is left, and every event that a remediation refers to
-- is found as before.
pub list_events-prune_events_through :
    (sequence : ℕ) (db : Db) (allowed : List String) (params : EventsListParams) {k : ℕ}
    {r : EventsListResponse}
    → HasOrderedEvents db
    → (prune_events_through sequence db).1 ≡ ok k
    → let left = (prune_events_through sequence db).0 in
      list_events allowed params (at_once left) ≡ ok r
      → let hosts = hosts_of allowed params.host in
        let cursor = start_of params.cursor r.earliest_cursor in
        (wanted hosts params.kinds cursor db
          ≡ r.events ++ wanted hosts params.kinds r.next_cursor left)
        × All (λ e. sequence < e.sequence) left.events
        × All (λ m. find_event left m.event_id ≡ find_event db m.event_id) db.remediations
unfolding find_event
list_events-prune_events_through sequence db allowed params {k} {r} ordered deleted answered =
    let left = (prune_events_through sequence db).0 in
    let hosts = hosts_of allowed params.host in
    let cursor = start_of params.cursor r.earliest_cursor in
    let done = prune_events_through-Pruned sequence db deleted in
    let (first, from) = started allowed params left answered in
    let in_order : IsOrdered left.events =
      rw done.events (delete_where-IsOrdered (is_old sequence) db.events ordered.ordered) in
    (
      select-delete_where (is_wanted cursor hosts params.kinds) (is_old sequence) db.events (
            All-map _ _ db.events
              (λ e given old. unwanted sequence cursor hosts params.kinds e (
                omega (
                  arith,
                  first,
                  from,
                  earliest-covers sequence hosts left left db.events e done.events
                      (omega (arith, done.given, given)) old,
                )))
              ordered.given_out)
          ∙ ap (λ es. select_where (is_wanted cursor hosts params.kinds) es) (sym done.events)
          ∙ list_events-resumes allowed params left in_order answered,
      rw done.events (pruned-above sequence db.events),
      kept_events (is_old sequence) db.events left.events db.remediations done.events done.free,
    )
