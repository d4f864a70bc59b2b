-- ===== src/Store/Events/Order.antt =====
-- Lists of fleet events in the order of their numbers, for the queries `ORDER BY sequence` of
-- crates/maxops-store/src/lib.rs.
use maxops.Prelude.{
  take, ℕ, ◌-◌, ◌≤◌, ◌<◌, ◌≡◌, refl, Bool, Bool-cases, false, ◌&&◌, Option, Option-cases, none,
  some, List, [], ◌∷◌, ◌++◌, inl, inr, arith, ltb, ◌==◌, length, select_where, All,
}
use maxops.Proto.Events.{EventRecord}
use maxops.Store.Events.Paging.{last_sequence, max_sequence}

abbrev pub IsOrdered : List EventRecord → Type 0
IsOrdered [] = Unit
IsOrdered (e ∷ es) = All (λ x. e.sequence < x.sequence) es × IsOrdered es

-- The rows of a kind `p` with a number past `c`.
abbrev pub past : (EventRecord → Bool) → ℕ → List EventRecord → List EventRecord
past p c es = select_where (λ e. ltb c e.sequence && p e) es

module _ (p : EventRecord → Bool) where
  -- A lower cursor asks for the same when all rows are past both.
  past_lower :
      (c d : ℕ) (es : List EventRecord)
      → c ≤ d
      → All (λ x. d < x.sequence) es
      → past p c es ≡ past p d es
  unfolding select_where
  past_lower c d [] h a = refl
  past_lower c d (e ∷ es) h a = ground (arith, h, a.0, past_lower c d es h a.1)

  past-above : (c : ℕ) (es : List EventRecord) → All (λ x. c ≤ x.sequence) (past p c es)
  unfolding select_where
  past-above c [] = tt
  past-above c (e ∷ es) = elim (Bool-cases (ltb c e.sequence && p e)) [
    | inl t ↦ rw t (ground (arith, t), past-above c es)
    | inr f ↦ rw f (past-above c es)
  ]

take-above :
    (c n : ℕ) (es : List EventRecord)
    → All (λ x. c ≤ x.sequence) es
    → All (λ x. c ≤ x.sequence) (take n es)
unfolding take
take-above c n [] a = tt
take-above c n (e ∷ es) a = elim (Bool-cases (n == 0)) [
  | inl t ↦ rw t tt
  | inr f ↦ rw f (a.0, take-above c (n - 1) es a.1)
]

last_at_least :
    (c d : ℕ) (es : List EventRecord)
    → c ≤ d
    → All (λ x. c ≤ x.sequence) es
    → c ≤ last_sequence es d
unfolding last_sequence
last_at_least c d [] h a = h
last_at_least c d (e ∷ es) h a = last_at_least c e.sequence es a.0 a.1

-- The number of the last row of a page is not below the cursor.
pub last-page :
    (p : EventRecord → Bool) (c n : ℕ) (es : List EventRecord)
    → c ≤ last_sequence (take n (past p c es)) c
last-page p c n es =
    last_at_least c c (take n (past p c es)) (omega arith)
      (take-above c n (past p c es) (past-above p c es))

-- A page and what is past its last row are all that is past the cursor.
pub past_page :
    (p : EventRecord → Bool) (c n : ℕ) (es : List EventRecord)
    → IsOrdered es
    → past p c es ≡ take n (past p c es) ++ past p (last_sequence (take n (past p c es)) c) es
unfolding take last_sequence select_where
past_page p c n [] o = refl
past_page p c n (e ∷ es) o = elim (Bool-cases (ltb c e.sequence && p e)) [
  | inr f ↦ ground (arith, f, past_page p c n es o.1, last-page p c n es)
  | inl t ↦ elim (Bool-cases (n == 0)) [
    | inl z ↦ ground (arith, t, z)
    | inr m ↦ ground (
      arith,
      t,
      m,
      past_lower p c e.sequence es (ground (arith, t)) o.0,
      past_page p e.sequence (n - 1) es o.1,
      last-page p e.sequence (n - 1) es,
    )
  ]
]

-- A page that is not full is all there is.
pub take-short :
    (n : ℕ) (es : List EventRecord) → (length (take n es) == n) ≡ false → take n es ≡ es
unfolding take
take-short n [] h = refl
take-short n (e ∷ es) h = ground (arith, h, take-short (n - 1) es)

abbrev pub IsAtMost : Option ℕ → ℕ → Type 0
IsAtMost none m = Unit
IsAtMost (some n) m = n ≤ m

-- Nothing is past a cursor that is not below the largest number.
pub past-max :
    (p q : EventRecord → Bool) (m : ℕ) (es : List EventRecord)
    → IsAtMost (max_sequence (select_where p es)) m
    → past (λ e. p e && q e) m es ≡ []
unfolding select_where max_sequence
past-max p q m [] h = refl
past-max p q m (e ∷ es) h = elim (Bool-cases (p e)) [
  | inr f ↦ ground (arith, f, h, past-max p q m es)
  | inl t ↦ elim (Option-cases (max_sequence (select_where p es))) [
    | inl z ↦ ground (arith, t, z, h, past-max p q m es (rw z tt))
    | inr (k, z) ↦ ground (arith, t, z, h, past-max p q m es (rw z (ground (arith, h, t, z))))
  ]
]
