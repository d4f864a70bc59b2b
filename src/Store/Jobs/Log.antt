-- ===== src/Store/Jobs/Log.antt =====
-- What the log of `job_events` (crates/maxops-store/src/lib.rs) says of one job: a fold over its
-- events in the order of their numbers. It specifies the state, the revision, the cancellation mark
-- and the two times of a row of `jobs`.
use maxops.Prelude.{
  Bool-cases, inl, inr, suc, ℕ, ◌+◌, ◌≡◌, Bool, true, false, not, ◌&&◌, Option, none, some, List,
  [], ◌∷◌, ◌++◌, arith, str_eq, select_where, if◌then◌else◌,
}
use maxops.Proto.Ids.{JobId}
use maxops.Proto.Jobs.{Timestamp, JobRecord, JobEvent}
use maxops.Proto.Json.{Value}
use maxops.Proto.JobState
use maxops.Proto.JobState.{JobState}
use maxops.Proto.JobEventKind.{JobEventKind, submitted, state_changed, cancel_requested, reconciled}
use maxops.Store.Db.{Db}
use maxops.Store.Jobs.{find_job, insert_event}

pub record Snapshot : Type 0 where
  pub state : JobState
  pub revision : ℕ
  pub cancel_requested : Bool
  pub created_at : Timestamp
  pub updated_at : Timestamp

-- `broken` is a log that no sequence of accepted operations writes.
pub data Replayed : Type 0 where
  fresh broken : Replayed
  known : Snapshot → Replayed

-- A cancellation request leaves the state alone and is refused in a terminal one; any other event
-- moves along the table of transitions, and is marked as a reconciliation exactly from
-- `reconciling` and `outcome_unknown`.
abbrev pub moved : Bool → Bool → Timestamp → Snapshot → JobState → Replayed
moved marked allowed at s next =
    if marked && allowed
    then known (record s { state = next; revision = s.revision + 1; updated_at = at })
    else broken

abbrev pub is_reconciling : JobState → Bool
is_reconciling JobState.reconciling = true
is_reconciling JobState.outcome_unknown = true
is_reconciling _ = false

abbrev pub advance : Timestamp → Snapshot → JobEventKind → JobState → Replayed
advance at s submitted next = broken
advance at s state_changed next =
    moved (not (is_reconciling s.state)) (JobState.can_transition_to s.state next) at s next
advance at s reconciled next =
    moved (is_reconciling s.state) (JobState.can_transition_to s.state next) at s next
advance at s cancel_requested next =
    if JobState.eq s.state next && not (JobState.is_terminal next)
    then known (record s { revision = s.revision + 1; cancel_requested = true; updated_at = at })
    else broken

abbrev pub begin : Timestamp → JobEventKind → JobState → Replayed
begin at submitted JobState.queued = known (record {
  state = JobState.queued;
  revision = 1;
  cancel_requested = false;
  created_at = at;
  updated_at = at;
})
begin at _ _ = broken

abbrev pub replay_step : Replayed → JobEvent → Replayed
replay_step broken e = broken
replay_step fresh e = begin e.occurred_at e.kind e.state
replay_step (known s) e = advance e.occurred_at s e.kind e.state

replay_from : Replayed → List JobEvent → Replayed
replay_from r [] = r
replay_from r (e ∷ es) = replay_from (replay_step r e) es

replay_from-append :
    (r : Replayed) (es : List JobEvent) (e : JobEvent)
    → replay_from r (es ++ e ∷ []) ≡ replay_step (replay_from r es) e
unfolding replay_from
replay_from-append r [] e = ground arith
replay_from-append r (d ∷ es) e = replay_from-append (replay_step r d) es e

abbrev pub of_job : JobId → JobEvent → Bool
of_job id e = str_eq e.job_id id

unfoldable pub replay : Db → JobId → Replayed
unfolding replay_from
replay db id = replay_from fresh (select_where (of_job id) db.job_events)

select_where-append :
    (p : JobEvent → Bool) (es : List JobEvent) (e : JobEvent)
    → select_where p (es ++ e ∷ [])
      ≡ (if p e then select_where p es ++ e ∷ [] else select_where p es)
unfolding select_where
select_where-append p [] e = ground arith
select_where-append p (d ∷ es) e = ground (arith, select_where-append p es e)

abbrev pub event : JobId → JobEventKind → JobState → Timestamp → Value → ℕ → JobEvent
event id kind state time payload sequence = record {
  sequence = sequence;
  job_id = id;
  kind = kind;
  state = state;
  occurred_at = time;
  payload = payload;
}

-- One more event is one more step for its job and nothing for the others.
pub replay-insert_event :
    (id : JobId) (kind : JobEventKind) (state : JobState) (time : Timestamp) (payload : Value)
    (db : Db) (rows : List JobRecord) (j : JobId)
    → replay (insert_event id kind state time payload (record db { jobs = rows })) j ≡ (
        if str_eq id j
        then replay_step (replay db j) (event id kind state time payload (suc db.job_sequence))
        else replay db j)
unfolding replay insert_event
replay-insert_event id kind state time payload db rows j =
    let e = event id kind state time payload (suc db.job_sequence) in
    rw (select_where-append (of_job j) db.job_events e) (elim (Bool-cases (str_eq id j)) [
      | inl same ↦ rw same (replay_from-append fresh (select_where (of_job j) db.job_events) e)
      | inr other ↦ rw other
    ])

-- What the table says of a job.
abbrev pub snapshot : Option JobRecord → Replayed
snapshot none = fresh
snapshot (some r) = known (record {
  state = r.state;
  revision = r.revision;
  cancel_requested = r.cancel_requested;
  created_at = r.created_at;
  updated_at = r.updated_at;
})

-- The table `jobs` is what the log says, for every identifier.
pub record IsReplayed (db : Db) : Type 0 where
  pub replayed : (id : JobId) → replay db id ≡ snapshot (find_job db id)

-- The other tables do not matter.
pub IsReplayed-same :
    {d e : Db} → e.jobs ≡ d.jobs → e.job_events ≡ d.job_events → IsReplayed d → IsReplayed e
unfolding replay find_job
IsReplayed-same {d} {e} p q h = record { replayed = λ id. rw (p, q) (h.replayed id) }
