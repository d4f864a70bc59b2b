-- ===== src/Prelude/Keys.antt =====
-- Primary keys: no two rows of a table have the same key. `same x y` compares the keys of rows.
use mathlib.Core.Path.{◌≡◌, refl}
use mathlib.Core.Bool.{Bool, true, false, ◌&&◌}
use mathlib.Core.Option.{none, some}
use mathlib.Core.List.{List, [], ◌∷◌, ◌++◌}
use native.Mathlib.Omega.{arith}
use maxops.Prelude.Tests.{if◌then◌else◌}
use maxops.Prelude.Tables.{find?, update_where, delete_where, count_where}

module _ {ℓ} {A : Type ℓ} (same : A → A → Bool) where
  abbrev pub IsUnique : List A → Type ℓ
  IsUnique [] = Unit
  IsUnique (x ∷ xs) = (find? (same x) xs ≡ none) × IsUnique xs

  find?-snoc :
      (p : A → Bool) (xs : List A) (y : A)
      → find? p xs ≡ none
      → p y ≡ false
      → find? p (xs ++ y ∷ []) ≡ none
  unfolding find?
  find?-snoc p [] y h n = ground arith
  find?-snoc p (x ∷ xs) y h n = ground (arith, find?-snoc p xs y)

  -- A row with a new key is added.
  pub IsUnique-append :
      (sym_same : (x y : A) → same x y ≡ same y x) (xs : List A) (y : A)
      → find? (same y) xs ≡ none
      → IsUnique xs
      → IsUnique (xs ++ y ∷ [])
  unfolding find?
  IsUnique-append s [] y h u = (refl, tt)
  IsUnique-append s (x ∷ xs) y h u = (
    find?-snoc (same x) xs y u.0 (ground (arith, s x y)),
    IsUnique-append s xs y (ground arith) u.1,
  )

  find?-update_none :
      (q p : A → Bool) (f : A → A) (xs : List A)
      → ((x : A) → q (f x) ≡ q x)
      → find? q xs ≡ none
      → find? q (update_where p f xs) ≡ none
  unfolding find? update_where
  find?-update_none q p f [] h n = refl
  find?-update_none q p f (x ∷ xs) h n = ground (arith, h x, find?-update_none q p f xs h)

  find?-same_update :
      (p : A → Bool) (f : A → A) (b : Bool) (x : A) (ys : List A)
      → ((y z : A) → same (f y) z ≡ same y z)
      → find? (same x) ys ≡ none
      → find? (same (if b then f x else x)) ys ≡ none
  unfolding find?
  find?-same_update p f false x ys h n = n
  find?-same_update p f true x [] h n = refl
  find?-same_update p f true x (y ∷ ys) h n =
      ground (arith, h x y, find?-same_update p f true x ys h)

  -- An update leaves the keys alone.
  pub IsUnique-update_where :
      (p : A → Bool) (f : A → A) (xs : List A)
      → ((x y : A) → same (f x) y ≡ same x y)
      → ((x y : A) → same x (f y) ≡ same x y)
      → IsUnique xs
      → IsUnique (update_where p f xs)
  unfolding update_where
  IsUnique-update_where p f [] hl hr u = tt
  IsUnique-update_where p f (x ∷ xs) hl hr u = (
    find?-same_update p f (p x) x (update_where p f xs) hl
        (find?-update_none (same x) p f xs (hr x) u.0),
    IsUnique-update_where p f xs hl hr u.1,
  )

  find?-delete_none :
      (q p : A → Bool) (xs : List A) → find? q xs ≡ none → find? q (delete_where p xs) ≡ none
  unfolding find? delete_where
  find?-delete_none q p [] n = refl
  find?-delete_none q p (x ∷ xs) n = ground (arith, find?-delete_none q p xs)

  IsUnique-if :
      (b : Bool) (x : A) (xs : List A)
      → find? (same x) xs ≡ none
      → IsUnique xs
      → IsUnique (if b then xs else x ∷ xs)
  IsUnique-if true x xs h u = u
  IsUnique-if false x xs h u = (h, u)

  pub IsUnique-delete_where :
      (p : A → Bool) (xs : List A) → IsUnique xs → IsUnique (delete_where p xs)
  unfolding delete_where
  IsUnique-delete_where p [] u = tt
  IsUnique-delete_where p (x ∷ xs) u =
      IsUnique-if (p x) x (delete_where p xs) (find?-delete_none (same x) p xs u.0)
        (IsUnique-delete_where p xs u.1)

  count_none :
      (k q : A → Bool) (xs : List A) → find? k xs ≡ none → count_where (λ x. k x && q x) xs ≡ 0
  unfolding find? count_where
  count_none k q [] h = refl
  count_none k q (x ∷ xs) h = ground (arith, count_none k q xs)

  find?-none_same :
      (k : A → Bool) (x : A) (xs : List A)
      → ((y : A) → k y ≡ true → same x y ≡ true)
      → find? (same x) xs ≡ none
      → find? k xs ≡ none
  unfolding find?
  find?-none_same k x [] h n = refl
  find?-none_same k x (y ∷ ys) h n = ground (arith, h y, find?-none_same k x ys h)

  -- Of the rows with one key at most one is counted: the one that the query by key finds.
  pub count_unique :
      (k q : A → Bool) (xs : List A) {r : A}
      → ((x y : A) → k x ≡ true → k y ≡ true → same x y ≡ true)
      → IsUnique xs
      → find? k xs ≡ some r
      → count_where (λ x. k x && q x) xs ≡ (if q r then 1 else 0)
  unfolding find? count_where
  count_unique k q [] h u f = cc
  count_unique k q (x ∷ xs) {r} h u f = ground (
    arith,
    count_unique k q xs {r = r} h u.1,
    λ (t : k x ≡ true). count_none k q xs (find?-none_same k x xs (λ y. h x y t) u.0),
  )

module _ {ℓ} {A : Type ℓ} where
  -- A row that is not deleted is still found.
  pub find?-delete_where_kept :
      (p q : A → Bool) (xs : List A) {r : A}
      → find? q xs ≡ some r
      → p r ≡ false
      → find? q (delete_where p xs) ≡ some r
  unfolding find? delete_where
  find?-delete_where_kept p q [] h k = h
  find?-delete_where_kept p q (x ∷ xs) {r} h k =
      ground (arith, find?-delete_where_kept p q xs {r = r})

  -- A query is not changed by the deletion of rows that it does not match.
  pub find?-delete_where_other :
      (p q : A → Bool) (xs : List A)
      → ((x : A) → p x ≡ true → q x ≡ false)
      → find? q (delete_where p xs) ≡ find? q xs
  unfolding find? delete_where
  find?-delete_where_other p q [] h = refl
  find?-delete_where_other p q (x ∷ xs) h = ground (arith, h x, find?-delete_where_other p q xs h)

  -- With one row for a key, its deletion leaves none.
  pub find?-delete_where_gone :
      (same : A → A → Bool) (p k : A → Bool) (xs : List A) {r : A}
      → ((x y : A) → k x ≡ true → k y ≡ true → same x y ≡ true)
      → IsUnique same xs
      → find? k xs ≡ some r
      → p r ≡ true
      → find? k (delete_where p xs) ≡ none
  unfolding find? delete_where
  find?-delete_where_gone same p k [] h u f g = cc
  find?-delete_where_gone same p k (x ∷ xs) {r} h u f g = ground (
    arith,
    find?-delete_where_gone same p k xs {r = r} h u.1,
    λ (t : k x ≡ true).
        find?-delete_none same k p xs (find?-none_same same k x xs (λ y. h x y t) u.0),
  )
