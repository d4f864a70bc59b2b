-- ===== src/Tests/Listing.antt =====
-- An example for the lists of jobs.
use maxops.Prelude.{ℕ, suc, ◌≡◌, refl, true, false, List, [], ◌∷◌, arith, length, All}
use maxops.Proto.Jobs.{JobRecord}
use maxops.Store.History.{no_rows}
use maxops.Store.Jobs.{queued_job}
use maxops.Store.Listing.{Ties, is_older, nonterminal_jobs}
use maxops.Store.Listing.Window.{nonterminal_jobs-overlooks}
use maxops.Tests.Deliveries.{a_clock}
use maxops.Tests.Jobs.{new_job}

abbrev copies : ℕ → List JobRecord
copies ℕ.zero = []
copies (suc n) = queued_job 2 "h" "j2" new_job ∷ copies n

abbrev first_job : JobRecord
first_job = queued_job 1 "h" "j1" new_job

abbrev no_ties : Ties
no_ties a b = false

length-copies : (n : ℕ) → length (copies n) ≡ n
length-copies ℕ.zero = refl
length-copies (suc n) = omega (arith, length-copies n)

All-newer : (n : ℕ) → All (λ x. is_older a_clock first_job x ≡ true) (copies n)
All-newer ℕ.zero = tt
All-newer (suc n) = (refl, All-newer n)

nonterminal_jobs-overlooks_example :
    nonterminal_jobs a_clock no_ties (record no_rows { jobs = first_job ∷ copies 200 })
    ≡ nonterminal_jobs a_clock no_ties (record no_rows { jobs = copies 200 })
nonterminal_jobs-overlooks_example =
    nonterminal_jobs-overlooks a_clock no_ties no_rows first_job (copies 200)
      (omega (arith, length-copies 200)) (All-newer 200)
