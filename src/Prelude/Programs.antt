-- ===== src/Prelude/Programs.antt =====
-- Programs: functions from a state to the next state and the value or the error.
use mathlib.Core.Path.{◌≡◌, refl}
use mathlib.Core.Bool.{Bool, true, false}
use maxops.Prelude.Results.{Result, ok, err}

abbrev pub Program {ℓ κ μ} : Type ℓ → Type κ → Type μ → Type (ℓ ⊔ κ ⊔ μ)
Program S E A = S → S × Result E A

-- What follows a step that ended in a state with a value or an error.
unfoldable pub continue_with {ℓ κ μ ν} :
    {S : Type ℓ} {E : Type κ} {A : Type μ} {B : Type ν}
    → S
    → Result E A
    → (A → Program S E B)
    → S × Result E B
continue_with s (ok a) f = f a s
continue_with s (err e) f = (s, err e)

infixl 5 ◌>>=◌ ◌>>◌
abbrev pub ◌>>=◌ {ℓ κ μ ν} :
    {S : Type ℓ} {E : Type κ} {A : Type μ} {B : Type ν}
    → Program S E A
    → (A → Program S E B)
    → Program S E B
(m >>= f) s = continue_with (m s).0 (m s).1 f

abbrev pub ◌>>◌ {ℓ κ μ} :
    {S : Type ℓ} {E : Type κ} {B : Type μ} → Program S E (Unit {0}) → Program S E B → Program S E B
m >> k = m >>= λ _. k

abbrev pub pure {ℓ κ μ} : {S : Type ℓ} {E : Type κ} {A : Type μ} → A → Program S E A
pure a s = (s, ok a)

-- A value that is computed without touching the state.
abbrev pub lift {ℓ κ μ} : {S : Type ℓ} {E : Type κ} {A : Type μ} → Result E A → Program S E A
lift r s = (s, r)

-- A value that is read off the state.
abbrev pub read {ℓ κ μ} : {S : Type ℓ} {E : Type κ} {A : Type μ} → (S → A) → Program S E A
read f s = (s, ok (f s))

-- The conditional of a program. It is shut, so that `choice_ind` reads off its parts.
infix 1 if◌then◌else◌
unfoldable pub if◌then◌else◌ {ℓ} : {A : Type ℓ} → Bool → A → A → A
if true then x else y = x
if false then x else y = y

-- To show a property of a choice, show it of each side, where the test is known.
pub choice_ind {ℓ κ} :
    {A : Type ℓ} (P : A → Type κ) (b : Bool) {x y : A}
    → (b ≡ true → P x)
    → (b ≡ false → P y)
    → P (if b then x else y)
unfolding if◌then◌else◌
choice_ind P true h k = h refl
choice_ind P false h k = k refl

pub continue_inv {ℓ κ μ ν ξ} :
    {S : Type ℓ} {E : Type κ} {A : Type μ} {B : Type ν} (P : S → Type ξ) (f : A → Program S E B)
    → ((a : A) (s : S) → P s → P (f a s).0)
    → (s : S) (r : Result E A) → P s
    → P (continue_with s r f).0
unfolding continue_with
continue_inv P f k s (ok a) p = k a s p
continue_inv P f k s (err e) p = p

-- What a step and all that may follow it keep, the sequence keeps.
pub bind_inv {ℓ κ μ ν ξ} :
    {S : Type ℓ} {E : Type κ} {A : Type μ} {B : Type ν} (P : S → Type ξ) (m : Program S E A)
    (f : A → Program S E B)
    → ((s : S) → P s → P (m s).0)
    → ((a : A) (s : S) → P s → P (f a s).0)
    → (s : S) → P s
    → P ((m >>= f) s).0
bind_inv P m f h k s p = continue_inv P f k (m s).0 (m s).1 (h s p)

-- A sequence that ends well has done its step well, and what follows it.
pub bind_ok {ℓ κ μ ν} :
    {S : Type ℓ} {E : Type κ} {A : Type μ} {B : Type ν} (f : A → Program S E B) (s : S)
    (r : Result E A) {b : B}
    → (continue_with s r f).1 ≡ ok b
    → (a : A) × (r ≡ ok a) × ((f a s).1 ≡ ok b) × ((continue_with s r f).0 ≡ (f a s).0)
unfolding continue_with
bind_ok f s (ok a) h = (a, refl, h, refl)
bind_ok f s (err e) h = cc

-- To show a property of a sequence, show it of a failed first step and of what follows a good one.
pub continue_ind {ℓ κ μ ν ξ} :
    {S : Type ℓ} {E : Type κ} {A : Type μ} {B : Type ν} (P : S × Result E B → Type ξ)
    (f : A → Program S E B) (s : S) (r : Result E A)
    → ((e : E) → r ≡ err e → P (s, err e))
    → ((a : A) → r ≡ ok a → P (f a s))
    → P (continue_with s r f)
unfolding continue_with
continue_ind P f s (ok a) h k = k a refl
continue_ind P f s (err e) h k = h e refl

pub continue_ok {ℓ κ μ ν} :
    {S : Type ℓ} {E : Type κ} {A : Type μ} {B : Type ν} (f : A → Program S E B) (s : S)
    {r : Result E A} {a : A}
    → r ≡ ok a
    → continue_with s r f ≡ f a s
unfolding continue_with
continue_ok f s e = rw e refl

pub choice_true {ℓ} : {A : Type ℓ} {b : Bool} (x y : A) → b ≡ true → (if b then x else y) ≡ x
unfolding if◌then◌else◌
choice_true x y e = rw e refl

pub choice_false {ℓ} : {A : Type ℓ} {b : Bool} (x y : A) → b ≡ false → (if b then x else y) ≡ y
unfolding if◌then◌else◌
choice_false x y e = rw e refl
