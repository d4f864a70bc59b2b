-- ===== src/Store/Remediation/Exclusive.antt =====
-- The active remediations of an episode and of a host, over sequences of `begin_remediation` and
-- `finish_remediation` of crates/maxops-store/src/lib.rs.
use maxops.Prelude.{
  ◌+◌, ◌≤◌, String, ◌≡◌, sym, subst, Bool, false, not, List, [], ◌∷◌, ok, ensure, ◌>>◌, inl, inr,
  arith, eq_of_str_eq, ltb, update_where, count_where, count_where-append,
}
use maxops.Proto.Ids.{EventId, EpisodeId, RemediationId}
use maxops.Proto.Jobs.{Timestamp}
use maxops.Proto.Names.{bounded}
use maxops.Proto.RemediationState
use maxops.Proto.RemediationState.{RemediationState}
use maxops.Proto.Events.{RemediationRecord}
use maxops.Store.Clock.{Clock}
use maxops.Store.Db.{Db}
use maxops.Store.Errors.{
  transact_inv, no_remediation_attempts, outcome_not_terminal, invalid_summary,
}
use maxops.Store.Remediation.{
  of_episode, BeginRemediation, new_remediation, begin_tx, begin_remediation, RemediationCompletion,
  is_remediation_at, complete, completed, finish_tx, finish_remediation,
}
use maxops.Store.Remediation.Inversion.{active_on, active_in, Begun, begin_tx-ok, finish_tx-ok}

-- For every host and every episode at most one attempt is active.
pub record HasOneActive (db : Db) : Type 0 where
  pub on_host : (host : String) → count_where (active_on host) db.remediations ≤ 1
  pub in_episode : (id : EpisodeId) → count_where (active_in id) db.remediations ≤ 1

-- A call of one of the two operations with its arguments.
pub data RemediationOperation : Type 0 where
  begin : BeginRemediation → RemediationOperation
  finish :
      EventId → Timestamp → RemediationId → String → RemediationCompletion → RemediationOperation

abbrev pub apply_remediation : Clock → RemediationOperation → Db → Db
apply_remediation clock (RemediationOperation.begin b) db = (begin_remediation clock b db).0
apply_remediation clock (RemediationOperation.finish event now id principal c) db =
    (finish_remediation event now id principal c db).0

abbrev pub run_remediations : Clock → List RemediationOperation → Db → Db
run_remediations clock [] db = db
run_remediations clock (op ∷ ops) db = run_remediations clock ops (apply_remediation clock op db)

begin-HasOneActive :
    (clock : Clock) (b : BeginRemediation) (db : Db) {db' : Db}
    → Begun clock b db db'
    → HasOneActive db
    → HasOneActive db'
unfolding count_where
begin-HasOneActive clock b db s h =
    let row =
      new_remediation b s.event.episode_id
        (count_where (of_episode s.event.episode_id) db.remediations + 1) in
    subst HasOneActive (sym s.written) (record {
      on_host = λ host. ground (
        arith,
        count_where-append (active_on host) db.remediations (row ∷ []),
        h.on_host host,
        s.free_host,
        eq_of_str_eq b.host host,
      );
      in_episode = λ id. ground (
        arith,
        count_where-append (active_in id) db.remediations (row ∷ []),
        h.in_episode id,
        s.free_episode,
        eq_of_str_eq s.event.episode_id id,
      );
    })

-- An update to rows that are not counted counts no more.
count_where-update_le :
    (p q : RemediationRecord → Bool) (f : RemediationRecord → RemediationRecord)
    (rs : List RemediationRecord)
    → ((r : RemediationRecord) → q (f r) ≡ false)
    → count_where q (update_where p f rs) ≤ count_where q rs
unfolding count_where update_where
count_where-update_le p q f [] h = omega arith
count_where-update_le p q f (r ∷ rs) h = ground (arith, h r, count_where-update_le p q f rs h)

finish-HasOneActive :
    (now : Timestamp) (id : RemediationId) (principal : String) (c : RemediationCompletion)
    (db : Db)
    → RemediationState.eq c.outcome RemediationState.active ≡ false
    → HasOneActive db
    → HasOneActive (completed now id principal c db)
finish-HasOneActive now id principal c db over h =
    let p = is_remediation_at id principal c.expected_revision in
    record {
      on_host = λ host. omega (
        arith,
        h.on_host host,
        count_where-update_le p (active_on host) (complete now c) db.remediations
            (λ r. ground (arith, over)),
      );
      in_episode = λ e. omega (
        arith,
        h.in_episode e,
        count_where-update_le p (active_in e) (complete now c) db.remediations
            (λ r. ground (arith, over)),
      );
    }

pub begun_body :
    (clock : Clock) (b : BeginRemediation) (db : Db) {db' : Db} {id : RemediationId}
    → (ensure (ltb 0 b.max_attempts) no_remediation_attempts >> begin_tx clock b db) ≡ ok (db', id)
    → begin_tx clock b db ≡ ok (db', id)
begun_body clock b db h = ground (arith, h)

pub finished_body :
    (event : EventId) (now : Timestamp) (id : RemediationId) (principal : String)
    (c : RemediationCompletion) (db : Db) {db' : Db} {u : Unit {0}}
    → (ensure (not (RemediationState.eq c.outcome RemediationState.active)) outcome_not_terminal
        >> (ensure (bounded 1024 c.summary) invalid_summary
            >> finish_tx event now id principal c db))
      ≡ ok (db', u)
    → (finish_tx event now id principal c db ≡ ok (db', u))
      × (RemediationState.eq c.outcome RemediationState.active ≡ false)
finished_body event now id principal c db h = (ground (arith, h), ground (arith, h))

apply_remediation-HasOneActive :
    (clock : Clock) (op : RemediationOperation) (db : Db)
    → HasOneActive db
    → HasOneActive (apply_remediation clock op db)
unfolding begin_remediation finish_remediation
apply_remediation-HasOneActive clock (RemediationOperation.begin b) db h =
    transact_inv HasOneActive db _ _ h λ db' id q.
      elim (begin_tx-ok clock b db (begun_body clock b db q)) [
        | inl (row, _, e, _) ↦ subst HasOneActive (sym e) h
        | inr (_, s, _) ↦ begin-HasOneActive clock b db s h
      ]
apply_remediation-HasOneActive clock (RemediationOperation.finish event now id principal c) db h =
    transact_inv HasOneActive db _ _ h λ db' u q.
      let (body, over) = finished_body event now id principal c db q in
      let (row, found, _, _, _, e) = finish_tx-ok event now id principal c db body in
      let k = finish-HasOneActive now id principal c db over h in
      subst HasOneActive (sym e) (record { on_host = k.on_host; in_episode = k.in_episode })

-- Whatever attempts begin and finish, by whomever and with whatever limits, if at first every host
-- and every episode has at most one active remediation, then so it is afterwards.
pub run_remediations-HasOneActive :
    (clock : Clock) (ops : List RemediationOperation) (db : Db)
    → HasOneActive db
    → HasOneActive (run_remediations clock ops db)
run_remediations-HasOneActive clock [] db h = h
run_remediations-HasOneActive clock (op ∷ ops) db h =
    run_remediations-HasOneActive clock ops (apply_remediation clock op db)
      (apply_remediation-HasOneActive clock op db h)
