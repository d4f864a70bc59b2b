-- ===== src/Store/Listing/Scoped.antt =====
-- What a client sees of the jobs (`list_visible_jobs` of crates/maxops-store/src/lib.rs).
use maxops.Prelude.{
  ℕ, ◌+◌, ◌-◌, ◌≤◌, String, ◌≡◌, refl, sym, ap, subst, ◌∙◌, Bool, Bool-cases, true, false, ◌&&◌,
  ◌==◌, Option, List, [], ◌∷◌, ok, ◌>>=◌, ok-injective, first-ok, second-ok, Result, err, ensure,
  leb, str_eq, eq_of_str_eq, inl, inr, arith, contains, length, take, select_where, count_where,
  if◌then◌else◌, All,
}
use maxops.Proto.Jobs.{JobRecord, JobsListParams}
use maxops.Store.Clock.{Clock}
use maxops.Store.Db.{Db}
use maxops.Store.Errors.{invalid_list_limit}
use maxops.Store.Listing.{is_null_or, has_state}
use maxops.Store.Listing.Visible.{
  Position, is_below, follows, insert_row, descending, unless_empty, job_position, job_cursor,
  is_visible_job, list_visible_jobs,
}

abbrev pub smaller : ℕ → ℕ → ℕ
smaller m n = if leb m n then m else n

module _ {ℓ} {A : Type ℓ} where
  All-select_where : (p : A → Bool) (xs : List A) → All (λ x. p x ≡ true) (select_where p xs)
  unfolding select_where
  All-select_where p [] = tt
  All-select_where p (x ∷ xs) = elim (Bool-cases (p x)) [
    | inl t ↦ rw t (t, All-select_where p xs)
    | inr f ↦ rw f (All-select_where p xs)
  ]

  All-take : (P : A → Type 0) (n : ℕ) (xs : List A) → All P xs → All P (take n xs)
  unfolding take
  All-take P n [] a = tt
  All-take P n (x ∷ xs) a = elim (Bool-cases (n == 0)) [
    | inl t ↦ rw t tt
    | inr f ↦ rw f (a.0, All-take P (n - 1) xs a.1)
  ]

  All-insert_row :
      (P : A → Type 0) (below : A → A → Bool) (r : A) (xs : List A)
      → P r
      → All P xs
      → All P (insert_row below r xs)
  unfolding insert_row
  All-insert_row P below r [] h a = (h, tt)
  All-insert_row P below r (x ∷ xs) h a = elim (Bool-cases (below r x)) [
    | inl t ↦ rw t (a.0, All-insert_row P below r xs h a.1)
    | inr f ↦ rw f (h, (a.0, a.1))
  ]

  All-descending :
      (P : A → Type 0) (below : A → A → Bool) (xs : List A) → All P xs → All P (descending below xs)
  unfolding descending
  All-descending P below [] a = tt
  All-descending P below (x ∷ xs) a =
      All-insert_row P below x (descending below xs) a.0 (All-descending P below xs a.1)

  length-take : (n : ℕ) (xs : List A) → length (take n xs) ≡ smaller n (length xs)
  unfolding take
  length-take n [] = ground arith
  length-take n (x ∷ xs) = ground (arith, length-take (n - 1) xs)

  length-insert_row :
      (below : A → A → Bool) (r : A) (xs : List A) → length (insert_row below r xs) ≡ length xs + 1
  unfolding insert_row
  length-insert_row below r [] = refl
  length-insert_row below r (x ∷ xs) = ground (arith, length-insert_row below r xs)

  length-descending :
      (below : A → A → Bool) (xs : List A) → length (descending below xs) ≡ length xs
  unfolding descending
  length-descending below [] = refl
  length-descending below (x ∷ xs) =
      omega (arith, length-insert_row below x (descending below xs), length-descending below xs)

  length-select_where : (p : A → Bool) (xs : List A) → length (select_where p xs) ≡ count_where p xs
  unfolding select_where count_where
  length-select_where p [] = refl
  length-select_where p (x ∷ xs) = ground (arith, length-select_where p xs)

  count_none : (p : A → Bool) (xs : List A) → ((x : A) → p x ≡ false) → count_where p xs ≡ 0
  unfolding count_where
  count_none p [] h = refl
  count_none p (x ∷ xs) h = ground (arith, h x, count_none p xs h)

  All-map : (P Q : A → Type 0) (xs : List A) → ((x : A) → P x → Q x) → All P xs → All Q xs
  All-map P Q [] f a = tt
  All-map P Q (x ∷ xs) f a = (f x a.0, All-map P Q xs f a.1)

  All-unless_empty :
      (P : A → Type 0) (names : List String) (xs : List A)
      → All P xs
      → All P (unless_empty names xs)
  All-unless_empty P [] xs a = tt
  All-unless_empty P (name ∷ names) xs a = a

length-unless_empty :
    (names : List String) (xs : List JobRecord)
    → (names ≡ [] → length xs ≡ 0)
    → length (unless_empty names xs) ≡ length xs
length-unless_empty [] xs h = sym (h refl)
length-unless_empty (name ∷ names) xs h = refl

smaller_zero : (n m : ℕ) → m ≡ 0 → smaller n m ≡ 0
smaller_zero n m h = ground (arith, h)

smaller_le : (n m : ℕ) → smaller n m ≤ n
smaller_le n m = ground arith

second_false : (a b c d e : Bool) → b ≡ false → (a && b && c && d && e) ≡ false
second_false true false c d e h = refl
second_false false b c d e h = refl
second_false true true c d e h = cc

all_five :
    (a b c d e : Bool)
    → (a && b && c && d && e) ≡ true
    → (a ≡ true) × (b ≡ true) × (c ≡ true) × (d ≡ true) × (e ≡ true)
all_five true true true true e h = (refl, refl, refl, refl, h)
all_five false b c d e h = cc
all_five true false c d e h = cc
all_five true true false d e h = cc
all_five true true true false e h = cc

-- Both steps of a successful chain have succeeded.
steps-ok {ℓ κ μ} :
    {E : Type κ} {A : Type ℓ} {B : Type μ} (m : Result E A) (f : A → Result E B) {b : B}
    → (m >>= f) ≡ ok b
    → (a : A) × (m ≡ ok a) × (f a ≡ ok b)
steps-ok (ok a) f h = (a, refl, h)
steps-ok (err e) f h = cc

within_limit : (n : ℕ) → ensure (leb 1 n && leb n 200) invalid_list_limit ≡ ok tt → n ≤ 200
within_limit n h = ground (arith, h)

-- The client's own job on one of its hosts, which the filters of the request admit.
unfoldable pub IsAdmitted : String → List String → JobsListParams → JobRecord → Type 0
IsAdmitted principal hosts params r =
    (r.principal ≡ principal)
    × (contains hosts r.host ≡ true)
    × (is_null_or params.host r.host ≡ true)
    × (has_state params.states r ≡ true)

module _ (clock : Clock) (principal : String) (hosts : List String) (params : JobsListParams) where
  visible-IsAdmitted :
      (cursor : Option Position) (r : JobRecord)
      → is_visible_job clock principal hosts params cursor r ≡ true
      → IsAdmitted principal hosts params r × (follows clock cursor (job_position r) ≡ true)
  unfolding is_visible_job IsAdmitted
  visible-IsAdmitted cursor r h =
      let a =
        all_five (str_eq r.principal principal) (contains hosts r.host)
          (is_null_or params.host r.host) (has_state params.states r)
          (follows clock cursor (job_position r)) h in
      ((eq_of_str_eq r.principal principal a.0, a.1, a.2, a.3), a.4)

  abbrev job_page : Option Position → Db → List JobRecord
  job_page cursor db = unless_empty hosts (
      take (params.limit + 1) (
        descending (λ a b. is_below clock (job_position a) (job_position b))
          (select_where (is_visible_job clock principal hosts params cursor) db.jobs)))

  job_page-IsAdmitted :
      (cursor : Option Position) (db : Db)
      → All
          (λ r.
            IsAdmitted principal hosts params r × (follows clock cursor (job_position r) ≡ true))
          (job_page cursor db)
  job_page-IsAdmitted cursor db =
      let visible = is_visible_job clock principal hosts params cursor in
      let below =
        λ (a : JobRecord) (b : JobRecord). is_below clock (job_position a) (job_position b) in
      let rows = select_where visible db.jobs in
      All-map (λ r. visible r ≡ true) _ (job_page cursor db) (visible-IsAdmitted cursor)
        (All-unless_empty _ hosts _ (
          All-take _ (params.limit + 1) _
            (All-descending _ below rows (All-select_where visible db.jobs))))

  no_hosts :
      (cursor : Option Position) (r : JobRecord)
      → hosts ≡ []
      → is_visible_job clock principal hosts params cursor r ≡ false
  unfolding is_visible_job contains
  no_hosts cursor r h = rw h (
      second_false (str_eq r.principal principal) (contains [] r.host)
        (is_null_or params.host r.host) (has_state params.states r)
        (follows clock cursor (job_position r)) refl)

  length-job_page :
      (cursor : Option Position) (db : Db)
      → length (job_page cursor db)
        ≡ smaller
            (params.limit + 1)
            (count_where (is_visible_job clock principal hosts params cursor) db.jobs)
  length-job_page cursor db =
      let visible = is_visible_job clock principal hosts params cursor in
      let below =
        λ (a : JobRecord) (b : JobRecord). is_below clock (job_position a) (job_position b) in
      let rows = descending below (select_where visible db.jobs) in
      let counted =
        length-descending below (select_where visible db.jobs)
        ∙ length-select_where visible db.jobs in
      let cut = length-take (params.limit + 1) rows ∙ ap (smaller (params.limit + 1)) counted in
      length-unless_empty hosts (take (params.limit + 1) rows)
        (λ h. cut ∙ smaller_zero _ _ (count_none visible db.jobs (λ r. no_hosts cursor r h)))
      ∙ cut

  -- When the list is answered, a cursor of the request names a job of the client on one of its
  -- hosts; every job of the reply is the client's own, on one of its hosts, admitted by the filters
  -- of the request and below the cursor; and there are as many as the table has visible ones, up to
  -- one more than the limit, which is at most 200.
  pub list_visible_jobs-IsAdmitted :
      (db : Db) (rs : List JobRecord)
      → list_visible_jobs clock db principal hosts params ≡ ok rs
      → (cursor : Option Position) × (job_cursor db principal hosts params.cursor ≡ ok cursor)
        × All
            (λ r.
              IsAdmitted principal hosts params r × (follows clock cursor (job_position r) ≡ true))
            rs
        × (length rs
            ≡ smaller
                (params.limit + 1)
                (count_where (is_visible_job clock principal hosts params cursor) db.jobs))
        × (length rs ≤ 201)
  unfolding list_visible_jobs
  list_visible_jobs-IsAdmitted db rs h =
      let test = leb 1 params.limit && leb params.limit 200 in
      let limited = first-ok (ensure test invalid_list_limit) _ h in
      let answered =
        steps-ok (job_cursor db principal hosts params.cursor) (λ c. ok (job_page c db))
          (second-ok (ensure test invalid_list_limit) h) in
      let cursor = answered.0 in
      let same = ok-injective answered.2 in
      let seen = count_where (is_visible_job clock principal hosts params cursor) db.jobs in
      let sized =
        subst (λ xs. length xs ≡ smaller (params.limit + 1) seen) same
          (length-job_page cursor db) in
      (
        cursor,
        answered.1,
        subst (All _) same (job_page-IsAdmitted cursor db),
        sized,
        omega (arith, within_limit params.limit limited, sized, smaller_le (params.limit + 1) seen),
      )
