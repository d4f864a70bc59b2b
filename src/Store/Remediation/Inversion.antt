-- ===== src/Store/Remediation/Inversion.antt =====
-- What the transactions of `begin_remediation` and `finish_remediation` of
-- crates/maxops-store/src/lib.rs commit.

use maxops.Prelude.{
  ◌+◌, ◌<◌, String, ◌≡◌, ◌⊎◌, subst, Bool, Bool-cases, true, ◌&&◌, Option-cases, none, some, ok,
  Result-cases, inl, inr, arith, str_eq, eq_of_str_eq, find?, count_where,
}
use maxops.Proto.Ids.{EventId, EpisodeId, RemediationId}
use maxops.Proto.Jobs.{Timestamp}
use maxops.Proto.Events.{EventRecord, RemediationRecord}
use maxops.Store.Clock.{Clock}
use maxops.Store.Db.{Db}
use maxops.Store.Errors.{to_i64}
use maxops.Store.Events.{with_event, find_event, insert_fleet_event}
use maxops.Store.Remediation.{
  is_remediation, is_active, of_episode, of_host, is_of_job, BeginRemediation, new_remediation,
  started_event, attempts_of, may_begin, with_remediation, record_attempt, begin_tx,
  RemediationCompletion, completed, finished_event, finish_tx,
}

abbrev pub active_on : String → RemediationRecord → Bool
active_on host r = is_active r && of_host host r

abbrev pub active_in : EpisodeId → RemediationRecord → Bool
active_in episode_id r = is_active r && of_episode episode_id r

-- What is recorded when a new attempt begins, and what was checked.
pub record Begun (clock : Clock) (b : BeginRemediation) (db db' : Db) : Type 0 where
  pub event : EventRecord
  pub found : find_event db b.event_id ≡ some event
  pub on_host : event.host ≡ b.host
  pub free_episode : count_where (active_in event.episode_id) db.remediations ≡ 0
  pub free_host : count_where (active_on b.host) db.remediations ≡ 0
  pub budget : attempts_of event.episode_id db < b.max_attempts
  pub written :
      let attempt = attempts_of event.episode_id db + 1 in
      db'
      ≡ with_event b.lifecycle_event
          (started_event b event attempt)
          b.now
          (with_remediation (new_remediation b event.episode_id attempt) db)

module _ (clock : Clock) (b : BeginRemediation) (db : Db) where
  pub record_attempt-ok :
      {db' : Db} (event : EventRecord)
      → find_event db b.event_id ≡ some event
      → event.host ≡ b.host
      → record_attempt clock b event db ≡ ok db'
      → Begun clock b db db'
  unfolding record_attempt may_begin insert_fleet_event
  record_attempt-ok event found on_host h = record {
    event = event;
    found = found;
    on_host = on_host;
    free_episode = ground (arith, h);
    free_host = ground (arith, h);
    budget = ground (arith, h);
    written = ground (arith, h);
  }

  -- Either the job has its attempt already, or a new one is recorded.
  pub begin_tx-ok :
      {db' : Db} {id : RemediationId}
      → begin_tx clock b db ≡ ok (db', id)
      → ((row : RemediationRecord) × (find? (is_of_job b.related_job_id b.principal) db.remediations
            ≡ some row)
          × (db' ≡ db)
          × (id ≡ row.remediation_id))
        ⊎ ((find? (is_of_job b.related_job_id b.principal) db.remediations ≡ none)
            × Begun clock b db db'
            × (id ≡ b.remediation_id))
  unfolding begin_tx
  begin_tx-ok {db'} h =
      elim (Option-cases (find? (is_of_job b.related_job_id b.principal) db.remediations)) [
        | inr (row, e) ↦ inl (row, e, ground (arith, h, e), ground (arith, h, e))
        | inl n ↦ elim (Option-cases (find_event db b.event_id)) [
          | inl q ↦ absurd (ground (arith, h, n, q))
          | inr (event, found) ↦ elim (Bool-cases (str_eq event.host b.host)) [
            | inr other ↦ absurd (ground (arith, h, n, found, other))
            | inl same ↦ elim (Result-cases (record_attempt clock b event db)) [
              | inr (e, q) ↦ absurd (ground (arith, h, n, found, same, q))
              | inl (d, q) ↦ inr (
                n,
                subst (Begun clock b db) (ground (arith, h, n, found, same, q))
                    (record_attempt-ok event found (eq_of_str_eq _ _ same) q),
                ground (arith, h, n, found, same, q),
              )
            ]
          ]
        ]
      ]

-- A committed completion ended an active attempt at the revision that the caller knew.
pub finish_tx-ok :
    (lifecycle_event : EventId) (now : Timestamp) (id : RemediationId) (principal : String)
    (c : RemediationCompletion) (db : Db) {db' : Db} {u : Unit {0}}
    → finish_tx lifecycle_event now id principal c db ≡ ok (db', u)
    → (row : RemediationRecord) × (event : EventRecord) × (find?
          (is_remediation id principal)
          db.remediations
        ≡ some row)
      × (row.revision ≡ c.expected_revision)
      × (is_active row ≡ true)
      × (db'
          ≡ with_event lifecycle_event
              (finished_event now c row event.fingerprint)
              now
              (completed now id principal c db))
unfolding finish_tx insert_fleet_event to_i64
finish_tx-ok lifecycle_event now id principal c db h =
    elim (Option-cases (find? (is_remediation id principal) db.remediations)) [
      | inl n ↦ absurd (ground (arith, h, n))
      | inr (row, e) ↦ elim (Option-cases (find_event db row.event_id)) [
        | inl n ↦ absurd (ground (arith, h, n, e))
        | inr (event, q) ↦
            (row, event, e, ground (arith, h, e), ground (arith, h, e), ground (arith, h, e, q))
      ]
    ]
