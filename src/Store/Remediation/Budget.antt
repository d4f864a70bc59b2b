-- ===== src/Store/Remediation/Budget.antt =====
-- The number of attempts for an episode, over sequences of `begin_remediation` and
-- `finish_remediation` of crates/maxops-store/src/lib.rs.
use maxops.Prelude.{
  ℕ, ◌+◌, ◌≤◌, ◌≡◌, refl, sym, subst, Bool, true, ◌&&◌, List, [], ◌∷◌, inl, inr, arith,
  eq_of_str_eq, leb, count_where, count_where-append, count_where-update_where,
}
use maxops.Proto.Ids.{EpisodeId}
use maxops.Store.Clock.{Clock}
use maxops.Store.Db.{Db}
use maxops.Store.Errors.{transact_inv}
use maxops.Store.Remediation.{
  of_episode, BeginRemediation, new_remediation, attempts_of, begin_remediation, is_remediation_at,
  complete, finish_remediation,
}
use maxops.Store.Remediation.Inversion.{Begun, begin_tx-ok, finish_tx-ok}
use maxops.Store.Remediation.Exclusive.{
  RemediationOperation, apply_remediation, run_remediations, begun_body, finished_body,
}

-- No call that begins an attempt allows more than `most`.
abbrev pub allows_at_most : ℕ → List RemediationOperation → Bool
allows_at_most most [] = true
allows_at_most most (RemediationOperation.begin b ∷ ops) =
    leb b.max_attempts most && allows_at_most most ops
allows_at_most most (RemediationOperation.finish _ _ _ _ _ ∷ ops) = allows_at_most most ops

abbrev pub IsWithin : ℕ → Db → Type 0
IsWithin most db = (id : EpisodeId) → attempts_of id db ≤ most

begin-IsWithin :
    (most : ℕ) (clock : Clock) (b : BeginRemediation) (db : Db) {db' : Db}
    → b.max_attempts ≤ most
    → Begun clock b db db'
    → IsWithin most db
    → IsWithin most db'
unfolding count_where
begin-IsWithin most clock b db limit s h =
    let row = new_remediation b s.event.episode_id (attempts_of s.event.episode_id db + 1) in
    subst (IsWithin most) (sym s.written) (λ id. ground (
      arith,
      count_where-append (of_episode id) db.remediations (row ∷ []),
      h id,
      s.budget,
      limit,
      eq_of_str_eq s.event.episode_id id,
    ))

apply_remediation-IsWithin :
    (most : ℕ) (clock : Clock) (op : RemediationOperation) (db : Db)
    → allows_at_most most (op ∷ []) ≡ true
    → IsWithin most db
    → IsWithin most (apply_remediation clock op db)
unfolding begin_remediation finish_remediation
apply_remediation-IsWithin most clock (RemediationOperation.begin b) db a h =
    transact_inv (IsWithin most) db _ _ h λ db' id q.
      elim (begin_tx-ok clock b db (begun_body clock b db q)) [
        | inl (row, _, e, _) ↦ subst (IsWithin most) (sym e) h
        | inr (_, s, _) ↦ begin-IsWithin most clock b db (ground (arith, a)) s h
      ]
apply_remediation-IsWithin most clock (RemediationOperation.finish event now id principal c) db a
      h =
    transact_inv (IsWithin most) db _ _ h λ db' u q.
      let (body, over) = finished_body event now id principal c db q in
      let (row, found, _, _, _, e) = finish_tx-ok event now id principal c db body in
      subst (IsWithin most) (sym e) (λ i.
        rw
          (count_where-update_where (is_remediation_at id principal c.expected_revision)
            (of_episode i) (complete now c) db.remediations (λ r. refl))
          (h i))

-- Whatever attempts begin and finish, if no call allows more than `most` attempts and no episode
-- has more at first, then no episode has more afterwards.
pub run_remediations-IsWithin :
    (most : ℕ) (clock : Clock) (ops : List RemediationOperation) (db : Db)
    → allows_at_most most ops ≡ true
    → IsWithin most db
    → IsWithin most (run_remediations clock ops db)
run_remediations-IsWithin most clock [] db a h = h
run_remediations-IsWithin most clock (RemediationOperation.begin b ∷ ops) db a h =
    run_remediations-IsWithin most clock ops _ (ground (arith, a)) (
      apply_remediation-IsWithin most clock (RemediationOperation.begin b) db (ground (arith, a)) h)
run_remediations-IsWithin most clock (RemediationOperation.finish e n i p c ∷ ops) db a h =
    run_remediations-IsWithin most clock ops _ a
      (apply_remediation-IsWithin most clock (RemediationOperation.finish e n i p c) db refl h)
