-- ===== src/Store/Listing/Window.antt =====
-- The window of `nonterminal_jobs` of crates/maxops-store/src/lib.rs.
use maxops.Prelude.{
  ℕ, ◌+◌, ◌-◌, ◌≤◌, ◌≡◌, refl, ap, ◌∙◌, Bool, Bool-cases, true, none, List, [], ◌∷◌, ◌++◌, ok, inl,
  inr, arith, length, take, select_where, All,
}
use maxops.Proto.Jobs.{JobRecord}
use maxops.Store.Clock.{Clock}
use maxops.Store.Db.{Db}
use maxops.Store.Listing.{
  Ties, is_older, is_later, insert_newest, newest_first, is_listed, has_state, list_jobs,
  is_unfinished, nonterminal_jobs,
}

module _ (clock : Clock) (ties : Ties) where
  insert_newest-All :
      (P : JobRecord → Type 0) (r : JobRecord) (xs : List JobRecord)
      → P r
      → All P xs
      → All P (insert_newest clock ties r xs)
  unfolding insert_newest
  insert_newest-All P r [] h a = (h, tt)
  insert_newest-All P r (x ∷ xs) h a = elim (Bool-cases (is_later clock ties r x)) [
    | inl t ↦ rw t (a.0, insert_newest-All P r xs h a.1)
    | inr f ↦ rw f (h, (a.0, a.1))
  ]

  newest_first-All :
      (P : JobRecord → Type 0) (xs : List JobRecord) → All P xs → All P (newest_first clock ties xs)
  unfolding newest_first
  newest_first-All P [] a = tt
  newest_first-All P (x ∷ xs) a =
      insert_newest-All P x (newest_first clock ties xs) a.0 (newest_first-All P xs a.1)

  length-insert_newest :
      (r : JobRecord) (xs : List JobRecord) → length (insert_newest clock ties r xs) ≡ length xs + 1
  unfolding insert_newest
  length-insert_newest r [] = refl
  length-insert_newest r (x ∷ xs) = ground (arith, length-insert_newest r xs)

  length-newest_first : (xs : List JobRecord) → length (newest_first clock ties xs) ≡ length xs
  unfolding newest_first
  length-newest_first [] = refl
  length-newest_first (x ∷ xs) =
      ground (arith, length-insert_newest x (newest_first clock ties xs), length-newest_first xs)

  -- A row that is older than all others comes last.
  insert_newest-oldest :
      (r : JobRecord) (xs : List JobRecord)
      → All (λ x. is_older clock r x ≡ true) xs
      → insert_newest clock ties r xs ≡ xs ++ r ∷ []
  unfolding insert_newest
  insert_newest-oldest r [] a = refl
  insert_newest-oldest r (x ∷ xs) a = ground (arith, a.0, insert_newest-oldest r xs a.1)

take-take : (m n : ℕ) (xs : List JobRecord) → m ≤ n → take m (take n xs) ≡ take m xs
unfolding take
take-take m n [] h = refl
take-take m n (x ∷ xs) h = ground (arith, h, take-take (m - 1) (n - 1) xs)

take-append : (n : ℕ) (xs ys : List JobRecord) → n ≤ length xs → take n (xs ++ ys) ≡ take n xs
unfolding take
take-append n [] [] h = refl
take-append n [] (y ∷ ys) h = ground (arith, h)
take-append n (x ∷ xs) ys h = ground (arith, h, take-append (n - 1) xs ys)

select-all :
    (p : JobRecord → Bool) (xs : List JobRecord)
    → ((x : JobRecord) → p x ≡ true)
    → select_where p xs ≡ xs
unfolding select_where
select-all p [] h = refl
select-all p (x ∷ xs) h = ground (arith, h x, select-all p xs h)

-- The reply is the unfinished ones of the 200 newest jobs of any state.
newest_200 :
    (clock : Clock) (ties : Ties) (db : Db)
    → nonterminal_jobs clock ties db
      ≡ ok (select_where is_unfinished (take 200 (newest_first clock ties db.jobs)))
unfolding nonterminal_jobs list_jobs
newest_200 clock ties db =
    let rows = newest_first clock ties db.jobs in
    rw (select-all (is_listed none none) db.jobs (λ x. refl)) (
      rw (select-all (has_state []) (take 1000 rows) (λ x. refl))
        (rw (take-take 200 1000 rows (omega arith)) refl))

-- A job that is older than all others is not seen once there are 200 others, whatever its state and
-- theirs: the reply is the one of the tables without it.
pub nonterminal_jobs-overlooks :
    (clock : Clock) (ties : Ties) (db : Db) (r : JobRecord) (rs : List JobRecord)
    → 200 ≤ length rs
    → All (λ x. is_older clock r x ≡ true) rs
    → nonterminal_jobs clock ties (record db { jobs = r ∷ rs })
      ≡ nonterminal_jobs clock ties (record db { jobs = rs })
unfolding newest_first
nonterminal_jobs-overlooks clock ties db r rs enough older =
    let rows = newest_first clock ties rs in
    rw (newest_200 clock ties (record db { jobs = r ∷ rs })) (
      rw (newest_200 clock ties (record db { jobs = rs })) (
        ap (λ xs. ok (select_where is_unfinished xs))
          (ap (take 200) (
              insert_newest-oldest clock ties r rows
                (newest_first-All clock ties (λ x. is_older clock r x ≡ true) rs older))
            ∙ take-append 200 rows (r ∷ [])
                (omega (arith, enough, length-newest_first clock ties rs)))))
