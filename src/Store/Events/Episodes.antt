-- ===== src/Store/Events/Episodes.antt =====
-- The episodes of alerts: two calls of `ingest_alert` of crates/maxops-store/src/lib.rs for one
-- source, fingerprint and host.

use maxops.Prelude.{
  suc, ◌≡◌, refl, not, ◌&&◌, Option-cases, none, some, [], ◌∷◌, ok, inl, inr, arith, str_eq_refl,
  if◌then◌else◌, find?, find?-append, find?-update_where, find?-holds, upsert-none, upsert-some,
}
use maxops.Proto.Ids.{EventId, EpisodeId}
use maxops.Proto.Jobs.{Timestamp}
use maxops.Proto.Events.{EventRecord}
use maxops.Store.Db.{Db, EpisodeRow}
use maxops.Store.Errors.{transact_ok}
use maxops.Store.Events.{
  AlertEventInput, is_event, find_event, event_row, with_event, insert_fleet_event, get_event,
  is_episode, find_episode, episode_of, episode_row, reopen, with_episode, alert_event, ingest_tx,
  ingest_alert,
}

module _ (fresh : EpisodeId) (id : EventId) (at : Timestamp) (input : AlertEventInput)
    (db : Db) where
  -- The episode that the alert belongs to.
  abbrev episode : EpisodeId
  episode = episode_of fresh input.firing (find_episode db input)

  written :
      {db' : Db} {u : Unit {0}}
      → ingest_tx fresh id at input db ≡ ok (db', u)
      → (db' ≡ with_event id (alert_event episode input) at (with_episode episode at input db))
        × (find_event db id ≡ none)
  unfolding ingest_tx insert_fleet_event find_event
  written h = (ground (arith, h), ground (arith, h))

  -- The event of the reply belongs to it.
  replied_episode :
      {e : EventRecord} → (ingest_alert fresh id at input db).1 ≡ ok e → e.episode_id ≡ episode
  unfolding ingest_alert find_event get_event find?
  replied_episode h =
      let (db', u, q, reply, s) = transact_ok db _ _ h in
      let (w, new) = written q in
      let row = event_row (suc db.event_sequence) id (alert_event episode input) at in
      ground (arith, reply, w, new, find?-append (is_event id) db.events (row ∷ []), str_eq_refl id)

  -- The row of an episode that is written.
  row_written :
      (ep : EpisodeId)
      → (row : EpisodeRow) × (find?
            (is_episode input.source input.fingerprint input.host)
            (with_episode ep at input db).episodes
          ≡ some row)
        × (row.episode_id ≡ ep)
        × (row.active ≡ input.firing)
  unfolding find?
  row_written ep =
      let p = is_episode input.source input.fingerprint input.host in
      let y = episode_row ep at input in
      let f = reopen ep input.firing at in
      elim (Option-cases (find? p db.episodes)) [
        | inl n ↦ (
          y,
          rw (upsert-none p f y db.episodes n) (
              rw (find?-append p db.episodes (y ∷ [])) (
                rw n (
                  rw (str_eq_refl input.source)
                    (rw (str_eq_refl input.fingerprint) (rw (str_eq_refl input.host) refl))))),
          refl,
          refl,
        )
        | inr (row, found) ↦ (
          f row,
          rw (upsert-some p f y db.episodes found) (
              rw (find?-update_where p p f db.episodes (λ x. refl))
                (rw found (rw (find?-holds p db.episodes found) refl))),
          refl,
          refl,
        )
      ]

  -- The row of the episode afterwards.
  episode_after :
      {e : EventRecord}
      → (ingest_alert fresh id at input db).1 ≡ ok e
      → (row : EpisodeRow) × (find?
            (is_episode input.source input.fingerprint input.host)
            (ingest_alert fresh id at input db).0.episodes
          ≡ some row)
        × (row.episode_id ≡ episode)
        × (row.active ≡ input.firing)
  unfolding ingest_alert
  episode_after h =
      let (db', u, q, reply, s) = transact_ok db _ _ h in
      let (w, new) = written q in
      let (row, found, same, active) = row_written episode in (row, rw s (rw w found), same, active)

-- When an alert has been ingested, and then another one of the same source, fingerprint and host,
-- the second belongs to the episode of the first, except that one that fires after one that was
-- resolved opens the new episode.
pub ingest_alert-episode :
    (fresh fresh' : EpisodeId) (id id' : EventId) (at at' : Timestamp)
    (input next : AlertEventInput) (db : Db) {e e' : EventRecord}
    → next.source ≡ input.source
    → next.fingerprint ≡ input.fingerprint
    → next.host ≡ input.host
    → (ingest_alert fresh id at input db).1 ≡ ok e
    → (ingest_alert fresh' id' at' next (ingest_alert fresh id at input db).0).1 ≡ ok e'
    → e'.episode_id ≡ (if next.firing && not input.firing then fresh' else e.episode_id)
unfolding find_episode episode_of
ingest_alert-episode fresh fresh' id id' at at' input next db {e} {e'} s f h first second =
    let db' = (ingest_alert fresh id at input db).0 in
    let (row, found, same, active) = episode_after fresh id at input db first in
    let there : find? (is_episode next.source next.fingerprint next.host) db'.episodes ≡ some row =
      cc (s, f, h, found) in
    ground (
      arith,
      replied_episode fresh id at input db first,
      replied_episode fresh' id' at' next db' second,
      there,
      same,
      active,
    )
