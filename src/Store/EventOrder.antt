-- ===== src/Store/EventOrder.antt =====
-- The order of fleet events under the operations that write them: `append_fleet_event`,
-- `ingest_alert`, `prune_events_through`, `begin_remediation` and `finish_remediation` of
-- crates/maxops-store/src/lib.rs.
pub mod Pruning
use maxops.Prelude.{
  ℕ, suc, ◌≤◌, ◌<◌, sym, subst, Bool, Bool-cases, List, [], ◌∷◌, ◌++◌, inl, inr, arith, leb,
  delete_where, All, All-append,
}
use maxops.Proto.Ids.{EventId, EpisodeId}
use maxops.Proto.Jobs.{Timestamp}
use maxops.Proto.Events.{EventRecord}
use maxops.Store.Clock.{Clock}
use maxops.Store.Db.{Db}
use maxops.Store.Errors.{transact_inv, to_i64}
use maxops.Store.Events.{
  NewFleetEvent, AlertEventInput, event_row, with_event, insert_fleet_event, append_fleet_event,
  find_episode, episode_of, with_episode, alert_event, ingest_tx, ingest_alert,
  prune_events_through,
}
use maxops.Store.Events.Order.{IsOrdered}
use maxops.Store.Remediation.{begin_remediation, finish_remediation}
use maxops.Store.Remediation.Inversion.{begin_tx-ok, finish_tx-ok}
use maxops.Store.Remediation.Exclusive.{
  RemediationOperation, apply_remediation, begun_body, finished_body,
}

-- Rows are in the order of their numbers, and no number is past the last one given out.
pub record HasOrderedEvents (db : Db) : Type 0 where
  pub ordered : IsOrdered db.events
  pub given_out : All (λ e. e.sequence ≤ db.event_sequence) db.events

IsOrdered-snoc :
    (n : ℕ) (e : EventRecord) (es : List EventRecord)
    → All (λ x. x.sequence ≤ n) es
    → n < e.sequence
    → IsOrdered es
    → IsOrdered (es ++ e ∷ [])
IsOrdered-snoc n e [] a h o = (tt, tt)
IsOrdered-snoc n e (x ∷ es) a h o = (
  All-append (λ y. x.sequence < y.sequence) es (e ∷ []) o.0 (omega (arith, a.0, h), tt),
  IsOrdered-snoc n e es a.1 h o.1,
)

All-more :
    (n : ℕ) (es : List EventRecord)
    → All (λ x. x.sequence ≤ n) es
    → All (λ x. x.sequence ≤ suc n) es
All-more n [] a = tt
All-more n (x ∷ es) a = (omega (arith, a.0), All-more n es a.1)

with_event-HasOrderedEvents :
    (id : EventId) (input : NewFleetEvent) (at : Timestamp) (db : Db)
    → HasOrderedEvents db
    → HasOrderedEvents (with_event id input at db)
with_event-HasOrderedEvents id input at db h =
    let row = event_row (suc db.event_sequence) id input at in
    record {
      ordered = IsOrdered-snoc db.event_sequence row db.events h.given_out (omega arith) h.ordered;
      given_out =
          All-append (λ e. e.sequence ≤ suc db.event_sequence) db.events (row ∷ [])
            (All-more db.event_sequence db.events h.given_out) (omega arith, tt);
    }

module _ (p : EventRecord → Bool) where
  pub All-delete_where :
      (P : EventRecord → Type 0) (es : List EventRecord) → All P es → All P (delete_where p es)
  unfolding delete_where
  All-delete_where P [] a = tt
  All-delete_where P (e ∷ es) a = elim (Bool-cases (p e)) [
    | inl t ↦ rw t (All-delete_where P es a.1)
    | inr f ↦ rw f (a.0, All-delete_where P es a.1)
  ]

  pub delete_where-IsOrdered :
      (es : List EventRecord) → IsOrdered es → IsOrdered (delete_where p es)
  unfolding delete_where
  delete_where-IsOrdered [] o = tt
  delete_where-IsOrdered (e ∷ es) o = elim (Bool-cases (p e)) [
    | inl t ↦ rw t (delete_where-IsOrdered es o.1)
    | inr f ↦
        rw f (All-delete_where (λ x. e.sequence < x.sequence) es o.0, delete_where-IsOrdered es o.1)
  ]

-- A call of one of the operations that write events, with its arguments.
pub data EventOperation : Type 0 where
  append : EventId → Timestamp → NewFleetEvent → EventOperation
  ingest : EpisodeId → EventId → Timestamp → AlertEventInput → EventOperation
  prune : ℕ → EventOperation
  remediate : RemediationOperation → EventOperation

abbrev pub apply_event : Clock → EventOperation → Db → Db
apply_event clock (EventOperation.append id at input) db = (append_fleet_event id at input db).0
apply_event clock (EventOperation.ingest fresh id at input) db =
    (ingest_alert fresh id at input db).0
apply_event clock (EventOperation.prune sequence) db = (prune_events_through sequence db).0
apply_event clock (EventOperation.remediate op) db = apply_remediation clock op db

abbrev pub run_events : Clock → List EventOperation → Db → Db
run_events clock [] db = db
run_events clock (op ∷ ops) db = run_events clock ops (apply_event clock op db)

remediation-HasOrderedEvents :
    (clock : Clock) (op : RemediationOperation) (db : Db)
    → HasOrderedEvents db
    → HasOrderedEvents (apply_remediation clock op db)
unfolding begin_remediation finish_remediation
remediation-HasOrderedEvents clock (RemediationOperation.begin b) db h =
    transact_inv HasOrderedEvents db _ _ h λ db' id q.
      elim (begin_tx-ok clock b db (begun_body clock b db q)) [
        | inl (row, _, e, _) ↦ subst HasOrderedEvents (sym e) h
        | inr (_, s, _) ↦ subst HasOrderedEvents (sym s.written) (
            with_event-HasOrderedEvents b.lifecycle_event _ b.now _
              (record { ordered = h.ordered; given_out = h.given_out }))
      ]
remediation-HasOrderedEvents clock (RemediationOperation.finish event now id principal c) db h =
    transact_inv HasOrderedEvents db _ _ h λ db' u q.
      let (body, over) = finished_body event now id principal c db q in
      let (row, found, _, _, _, e) = finish_tx-ok event now id principal c db body in
      subst HasOrderedEvents (sym e) (
        with_event-HasOrderedEvents event _ now _
          (record { ordered = h.ordered; given_out = h.given_out }))

apply_event-HasOrderedEvents :
    (clock : Clock) (op : EventOperation) (db : Db)
    → HasOrderedEvents db
    → HasOrderedEvents (apply_event clock op db)
unfolding append_fleet_event ingest_alert ingest_tx insert_fleet_event prune_events_through to_i64
apply_event-HasOrderedEvents clock (EventOperation.append id at input) db h =
    transact_inv HasOrderedEvents db _ _ h λ db' u q.
      subst HasOrderedEvents (ground (arith, q)) (with_event-HasOrderedEvents id input at db h)
apply_event-HasOrderedEvents clock (EventOperation.ingest fresh id at input) db h =
    transact_inv HasOrderedEvents db _ _ h λ db' u q.
      let episode = episode_of fresh input.firing (find_episode db input) in
      subst HasOrderedEvents (ground (arith, q)) (
        with_event-HasOrderedEvents id (alert_event episode input) at
          (with_episode episode at input db)
          (record { ordered = h.ordered; given_out = h.given_out }))
apply_event-HasOrderedEvents clock (EventOperation.prune sequence) db h =
    transact_inv HasOrderedEvents db _ _ h λ db' n q.
      let p = λ (e : EventRecord). leb e.sequence sequence in
      let kept : HasOrderedEvents (record db {
        events = delete_where p db.events;
        deliveries = delete_where (λ d. leb d.event_sequence sequence) db.deliveries;
      }) =
        record {
          ordered = delete_where-IsOrdered p db.events h.ordered;
          given_out =
              All-delete_where p (λ e. e.sequence ≤ db.event_sequence) db.events h.given_out;
        } in
      subst HasOrderedEvents (ground (arith, q)) kept
apply_event-HasOrderedEvents clock (EventOperation.remediate op) db h =
    remediation-HasOrderedEvents clock op db h

-- Whatever events are appended, alerts ingested, events pruned and remediations begun and
-- finished, if the events are in the order of their numbers and no number is past the last one
-- given out, then so it is afterwards.
pub run_events-HasOrderedEvents :
    (clock : Clock) (ops : List EventOperation) (db : Db)
    → HasOrderedEvents db
    → HasOrderedEvents (run_events clock ops db)
run_events-HasOrderedEvents clock [] db h = h
run_events-HasOrderedEvents clock (op ∷ ops) db h =
    run_events-HasOrderedEvents clock ops (apply_event clock op db)
      (apply_event-HasOrderedEvents clock op db h)
