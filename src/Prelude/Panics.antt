-- ===== src/Prelude/Panics.antt =====
-- A computation that may panic, as a slice off a character boundary does.
use mathlib.Core.Path.{◌≡◌, refl}

pub data Checked {ℓ} (A : Type ℓ) : Type ℓ where
  done : A → Checked A
  panicked : Checked A

infixl 5 ◌>>=◌
abbrev pub ◌>>=◌ {ℓ κ} : {A : Type ℓ} {B : Type κ} → Checked A → (A → Checked B) → Checked B
done a >>= f = f a
panicked >>= f = panicked

abbrev pub IsDone {ℓ} : {A : Type ℓ} → Checked A → Type ℓ
IsDone {A} r = (a : A) × (r ≡ done a)

pub IsDone-bind {ℓ κ} :
    {A : Type ℓ} {B : Type κ} (r : Checked A) (f : A → Checked B)
    → IsDone r
    → ((a : A) → r ≡ done a → IsDone (f a))
    → IsDone (r >>= f)
IsDone-bind (done a) f h k = k a refl
IsDone-bind panicked f h k = absurd (cc h.1)

-- `P` of the value, if there is one.
abbrev pub IfDone {ℓ κ} : {A : Type ℓ} → (A → Type κ) → Checked A → Type κ
IfDone P (done a) = P a
IfDone P panicked = Unit
