-- ===== src/Store/Changes/Stale.antt =====
-- A second writer with the revision that the first one used: `transition_change` of
-- crates/maxops-store/src/lib.rs.

use maxops.Prelude.{
  ◌+◌, String, ◌≡◌, refl, true, Option-cases, some, ok, err, inl, inr, arith, find?, find?-holds,
  find?-update_where, update_where,
}
use maxops.Proto.Ids.{ChangeId}
use maxops.Proto.Jobs.{Timestamp}
use maxops.Proto.Changes.{ChangeRecord}
use maxops.Store.Db.{Db, ChangeRow}
use maxops.Store.Errors.{transact, transact_ok, change_revision_changed, to_i64, next_revision}
use maxops.Store.Changes.{
  is_owned, is_owned_at, ChangeTransition, set_change, may_become, transition_change_tx,
  transition_change,
}

module _ (at : Timestamp) (id : ChangeId) (creator : String) (update : ChangeTransition)
    (db : Db) where
  -- What a committed transition found and wrote.
  pub transition_change_tx-ok :
      {db' : Db} {u : Unit {0}}
      → transition_change_tx at id creator update db ≡ ok (db', u)
      → (row : ChangeRow) × (find? (is_owned id creator) db.changes ≡ some row)
        × (row.revision ≡ update.expected_revision)
        × (may_become row.state update.next ≡ true)
        × (db' ≡ record db {
          changes =
              update_where
                (is_owned_at id creator update.expected_revision)
                (set_change update (update.expected_revision + 1) at)
                db.changes;
        })
  unfolding transition_change_tx to_i64 next_revision
  transition_change_tx-ok h = elim (Option-cases (find? (is_owned id creator) db.changes)) [
    | inl n ↦ absurd (ground (arith, h, n))
    | inr (row, f) ↦ (row, f, ground (arith, h, f), ground (arith, h, f), ground (arith, h, f))
  ]

  -- After a transition of a change has committed, the table allowed it, and any other transition by
  -- the same creator that still carries the old revision is refused for that revision and writes
  -- nothing.
  pub transition_change-excludes :
      {reply : ChangeRecord}
      → (transition_change at id creator update db).1 ≡ ok reply
      → let db' = (transition_change at id creator update db).0 in
        ((row : ChangeRow) × (find? (is_owned id creator) db.changes ≡ some row)
          × (may_become row.state update.next ≡ true))
        × ((at' : Timestamp) (other : ChangeTransition)
            → other.expected_revision ≡ update.expected_revision
            → transition_change at' id creator other db' ≡ (db', err change_revision_changed))
  unfolding transition_change transact transition_change_tx
  transition_change-excludes h =
      let (db', u, q, reply, e) = transact_ok db _ _ h in
      let (row, found, same, may, w) = transition_change_tx-ok q in
      let key = is_owned id creator in
      let p = is_owned_at id creator update.expected_revision in
      let f = set_change update (update.expected_revision + 1) at in
      let moved : find? key (update_where p f db.changes) ≡ some (f row) = ground (
        arith,
        find?-update_where p key f db.changes (λ r. refl),
        find?-holds key db.changes found,
        found,
        same,
      ) in
      ((row, found, may), λ at' other stale. ground (arith, q, w, moved, stale))
