-- ===== src/Prelude/Tables.antt =====
-- A table is a list of rows in the order of insertion. `find?` is a query for one row,
-- `update_where` and `delete_where` are the statements of SQL, `count_where` counts rows.
use Prim.Native.Nat.{ℕ, suc, ◌+◌, ◌-◌}
use mathlib.Core.Path.{◌≡◌, refl, subst}
use mathlib.Core.Bool.{Bool, true, false}
use mathlib.Core.Option
use mathlib.Core.Option.{Option, none, some, some-injective, none-ne-some}
use mathlib.Core.List.{List, [], ◌∷◌, ◌++◌}
use native.Mathlib.Omega.{arith}
use maxops.Prelude.Tests.{◌==◌, if◌then◌else◌, Bool-cases, Option-cases}
use mathlib.Core.Logic.{◌⊎◌, inl, inr}

module _ {ℓ} {A : Type ℓ} where
  abbrev pub length : List A → ℕ
  length [] = 0
  length (x ∷ xs) = suc (length xs)

  unfoldable pub find? : (A → Bool) → List A → Option A
  find? p [] = none
  find? p (x ∷ xs) = if p x then some x else find? p xs

  unfoldable pub update_where : (A → Bool) → (A → A) → List A → List A
  update_where p f [] = []
  update_where p f (x ∷ xs) = (if p x then f x else x) ∷ update_where p f xs

  unfoldable pub delete_where : (A → Bool) → List A → List A
  delete_where p [] = []
  delete_where p (x ∷ xs) = let rest = delete_where p xs in if p x then rest else x ∷ rest

  unfoldable pub select_where : (A → Bool) → List A → List A
  select_where p [] = []
  select_where p (x ∷ xs) = let rest = select_where p xs in if p x then x ∷ rest else rest

  unfoldable pub count_where : (A → Bool) → List A → ℕ
  count_where p [] = 0
  count_where p (x ∷ xs) = (if p x then 1 else 0) + count_where p xs

  -- `INSERT ... ON CONFLICT DO UPDATE`
  unfoldable pub upsert : (A → Bool) → (A → A) → A → List A → List A
  upsert p f y xs = elim (find? p xs) [ none ↦ xs ++ y ∷ [] | some x ↦ update_where p f xs ]

  -- `LIMIT ?`, and `take` of an iterator
  unfoldable pub take : ℕ → List A → List A
  take n [] = []
  take n (x ∷ xs) = let rest = take (n - 1) xs in if n == 0 then [] else x ∷ rest

  pub find?-holds : (p : A → Bool) (xs : List A) {x : A} → find? p xs ≡ some x → p x ≡ true
  unfolding find?
  find?-holds p [] h = cc
  find?-holds p (y ∷ ys) {x} h = ground (arith, find?-holds p ys {x = x})

  pub find?-append :
      (p : A → Bool) (xs ys : List A)
      → find? p (xs ++ ys) ≡ elim (find? p xs) [ none ↦ find? p ys | some x ↦ some x ]
  unfolding find?
  find?-append p [] ys = refl
  find?-append p (x ∷ xs) ys = ground (arith, find?-append p xs ys)

  -- The query after an update whose assignments leave the queried columns alone.
  pub find?-update_where :
      (p q : A → Bool) (f : A → A) (xs : List A)
      → ((x : A) → q (f x) ≡ q x)
      → find? q (update_where p f xs) ≡ Option.map (λ x. if p x then f x else x) (find? q xs)
  unfolding find? update_where
  find?-update_where p q f [] h = refl
  find?-update_where p q f (x ∷ xs) h = ground (arith, h x, find?-update_where p q f xs h)

  pub upsert-none :
      (p : A → Bool) (f : A → A) (y : A) (xs : List A)
      → find? p xs ≡ none
      → upsert p f y xs ≡ xs ++ y ∷ []
  unfolding upsert
  upsert-none p f y xs h = ground (arith, h)

  pub upsert-some :
      (p : A → Bool) (f : A → A) (y : A) (xs : List A) {x : A}
      → find? p xs ≡ some x
      → upsert p f y xs ≡ update_where p f xs
  unfolding upsert
  upsert-some p f y xs h = ground (arith, h)

  -- What an upsert leaves of a row that was there.
  pub find?-upsert_there :
      (p q : A → Bool) (f : A → A) (y : A) (xs : List A) {x : A}
      → ((x : A) → q (f x) ≡ q x)
      → find? q xs ≡ some x
      → (find? q (upsert p f y xs) ≡ some x)
        ⊎ ((p x ≡ true) × (find? q (upsert p f y xs) ≡ some (f x)))
  find?-upsert_there p q f y xs {x} h there = elim (Option-cases (find? p xs)) [
    | inl n ↦ inl (rw (upsert-none p f y xs n) (rw (find?-append q xs (y ∷ [])) (rw there)))
    | inr (z, some_z) ↦ elim (Bool-cases (p x)) [
      | inl t ↦ inr (
        t,
        rw (upsert-some p f y xs some_z) (rw (find?-update_where p q f xs h) (rw there (rw t))),
      )
      | inr n ↦
          inl (
            rw (upsert-some p f y xs some_z) (rw (find?-update_where p q f xs h) (rw there (rw n))))
    ]
  ]

  pub count_where-append :
      (p : A → Bool) (xs ys : List A)
      → count_where p (xs ++ ys) ≡ count_where p xs + count_where p ys
  unfolding count_where
  count_where-append p [] ys = omega arith
  count_where-append p (x ∷ xs) ys = omega (arith, count_where-append p xs ys)

  pub count_where-update_where :
      (p q : A → Bool) (f : A → A) (xs : List A)
      → ((x : A) → q (f x) ≡ q x)
      → count_where q (update_where p f xs) ≡ count_where q xs
  unfolding count_where update_where
  count_where-update_where p q f [] h = refl
  count_where-update_where p q f (x ∷ xs) h =
      ground (arith, h x, count_where-update_where p q f xs h)

  -- A count of no rows is a query that finds none.
  pub find?-none_of_count : (p : A → Bool) (xs : List A) → count_where p xs ≡ 0 → find? p xs ≡ none
  unfolding count_where find?
  find?-none_of_count p [] h = refl
  find?-none_of_count p (x ∷ xs) h = ground (arith, find?-none_of_count p xs)

  pub select_where-append :
      (p : A → Bool) (xs ys : List A)
      → select_where p (xs ++ ys) ≡ select_where p xs ++ select_where p ys
  unfolding select_where
  select_where-append p [] ys = refl
  select_where-append p (x ∷ xs) ys = ground (arith, select_where-append p xs ys)

  pub none_counted : (p : A → Bool) (xs : List A) → find? p xs ≡ none → count_where p xs ≡ 0
  unfolding count_where find?
  none_counted p [] h = refl
  none_counted p (x ∷ xs) h = ground (arith, none_counted p xs)

module _ {ℓ κ} {A : Type ℓ} where
  abbrev pub All : (A → Type κ) → List A → Type κ
  All P [] = Unit
  All P (x ∷ xs) = P x × All P xs

  pub All-append : (P : A → Type κ) (xs ys : List A) → All P xs → All P ys → All P (xs ++ ys)
  All-append P [] ys hx hy = hy
  All-append P (x ∷ xs) ys hx hy = (hx.0, All-append P xs ys hx.1 hy)

  All-if : (P : A → Type κ) (b : Bool) (x y : A) → P x → P y → P (if b then x else y)
  All-if P true x y hx hy = hx
  All-if P false x y hx hy = hy

  pub All-update_where :
      (P : A → Type κ) (p : A → Bool) (f : A → A) (xs : List A)
      → ((x : A) → P x → P (f x))
      → All P xs
      → All P (update_where p f xs)
  unfolding update_where
  All-update_where P p f [] h a = a
  All-update_where P p f (x ∷ xs) h a =
      (All-if P (p x) (f x) x (h x a.0) a.0, All-update_where P p f xs h a.1)

  All-if_find :
      (P : A → Type κ) (b : Bool) (y : A) (o : Option A) {x : A}
      → P y
      → (o ≡ some x → P x)
      → (if b then some y else o) ≡ some x
      → P x
  All-if_find P true y o hy ho h = subst P (some-injective _ _ h) hy
  All-if_find P false y o hy ho h = ho h

  pub All-find? :
      (P : A → Type κ) (p : A → Bool) (xs : List A) {x : A} → All P xs → find? p xs ≡ some x → P x
  unfolding find?
  All-find? P p [] a h = absurd (none-ne-some _ h)
  All-find? P p (y ∷ ys) {x} a h = All-if_find P (p y) y (find? p ys) a.0 (All-find? P p ys a.1) h
