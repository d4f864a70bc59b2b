-- ===== src/Store/Jobs/Evolution.antt =====
-- How the rows of `jobs` may change under the operations of crates/maxops-store/src/lib.rs.
use maxops.Prelude.{ap, ◌≤◌, ◌≡◌, refl, true, some, arith, ◌∙◌}
use maxops.Proto.Ids.{JobId}
use maxops.Proto.Jobs.{JobRecord}
use maxops.Proto.JobState.Graph.{is_settled, Reaches, here, Reaches-trans}
use maxops.Store.Db.{Db}
use maxops.Store.Jobs.{find_job}

pub record Evolves (r r' : JobRecord) : Type 0 where
  pub job_id : r'.job_id ≡ r.job_id
  pub principal : r'.principal ≡ r.principal
  pub host : r'.host ≡ r.host
  pub operation : r'.operation ≡ r.operation
  pub spec : r'.spec ≡ r.spec
  pub spec_hash : r'.spec_hash ≡ r.spec_hash
  pub created_at : r'.created_at ≡ r.created_at
  pub state : Reaches r.state r'.state
  pub revision : r.revision ≤ r'.revision
  pub unchanged : r'.revision ≡ r.revision → r' ≡ r
  pub settled_kept : is_settled r.state ≡ true → r' ≡ r
  pub cancel_kept : r.cancel_requested ≡ true → r'.cancel_requested ≡ true

pub Evolves-refl : (r : JobRecord) → Evolves r r
Evolves-refl r = record {
  job_id = refl;
  principal = refl;
  host = refl;
  operation = refl;
  spec = refl;
  spec_hash = refl;
  created_at = refl;
  state = here;
  revision = omega arith;
  unchanged = λ _. refl;
  settled_kept = λ _. refl;
  cancel_kept = λ h. h;
}

pub Evolves-trans : {r s t : JobRecord} → Evolves r s → Evolves s t → Evolves r t
Evolves-trans {r} {s} {t} p q = record {
  job_id = q.job_id ∙ p.job_id;
  principal = q.principal ∙ p.principal;
  host = q.host ∙ p.host;
  operation = q.operation ∙ p.operation;
  spec = q.spec ∙ p.spec;
  spec_hash = q.spec_hash ∙ p.spec_hash;
  created_at = q.created_at ∙ p.created_at;
  state = Reaches-trans p.state q.state;
  revision = omega (arith, p.revision, q.revision);
  unchanged = λ e.
      q.unchanged (omega (arith, p.revision, q.revision, e))
      ∙ p.unchanged (omega (arith, p.revision, q.revision, e));
  settled_kept = λ h.
      let e = p.settled_kept h in
      q.settled_kept (rw (ap (λ (x : JobRecord). is_settled x.state) e) h) ∙ e;
  cancel_kept = λ h. q.cancel_kept (p.cancel_kept h);
}

-- Every job is still there, and has evolved.
pub record JobsEvolve (db db' : Db) : Type 0 where
  pub job :
      (id : JobId) (r : JobRecord)
      → find_job db id ≡ some r
      → (r' : JobRecord) × (find_job db' id ≡ some r') × Evolves r r'

pub JobsEvolve-refl : (db : Db) → JobsEvolve db db
JobsEvolve-refl db = record { job = λ id r h. (r, h, Evolves-refl r) }

pub JobsEvolve-trans : {a b c : Db} → JobsEvolve a b → JobsEvolve b c → JobsEvolve a c
JobsEvolve-trans p q = record {
  job = λ id r h.
      let (s, hs, ps) = p.job id r h in
      let (t, ht, qt) = q.job id s hs in (t, ht, Evolves-trans ps qt);
}

pub JobsEvolve-same : {db db' : Db} → db'.jobs ≡ db.jobs → JobsEvolve db db'
unfolding find_job
JobsEvolve-same p = record { job = λ id r h. (r, rw p h, Evolves-refl r) }
