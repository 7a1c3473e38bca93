-- ===== src/Conf/Checked.antt =====
-- The outcomes of reading the settings: a result, a refusal (-1), a read past the end of a buffer,
-- or a loop whose fuel ran out;
-- and what a chain of steps ensures of its result.
use gaminganywhere.Base.{◌≡◌, refl, Bool, true, false, if◌then◌else◌}
use mathlib.Core.Path.{subst}

pub data Checked {ℓ} (A : Type ℓ) : Type ℓ where
  ok : A → Checked A
  rejected overrun out_of_fuel : Checked A

infixl 5 ◌>>=◌
abbrev pub ◌>>=◌ {ℓ κ} : {A : Type ℓ} {B : Type κ} → Checked A → (A → Checked B) → Checked B
ok a >>= f = f a
rejected >>= f = rejected
overrun >>= f = overrun
out_of_fuel >>= f = out_of_fuel

-- Where there is a result, it has the property.
abbrev pub Ensures {ℓ} : {A : Type ℓ} → (A → Type 0) → Checked A → Type 0
Ensures P (ok a) = P a
Ensures P rejected = Unit
Ensures P overrun = Unit
Ensures P out_of_fuel = Unit

module _ {ℓ κ} {A : Type ℓ} {B : Type κ} (Q : B → Type 0) where
  pub Ensures-bind :
      (P : A → Type 0) (m : Checked A) (f : A → Checked B)
      → Ensures P m
      → ((a : A) → P a → Ensures Q (f a))
      → Ensures Q (m >>= f)
  Ensures-bind P (ok a) f h k = k a h
  Ensures-bind P rejected f h k = tt
  Ensures-bind P overrun f h k = tt
  Ensures-bind P out_of_fuel f h k = tt

  -- a step of which nothing is needed
  pub Ensures-then :
      (m : Checked A) (f : A → Checked B) → ((a : A) → Ensures Q (f a)) → Ensures Q (m >>= f)
  Ensures-then (ok a) f k = k a
  Ensures-then rejected f k = tt
  Ensures-then overrun f k = tt
  Ensures-then out_of_fuel f k = tt

pub Ensures-result {ℓ} :
    {A : Type ℓ} (P : A → Type 0) (m : Checked A) (a : A) → Ensures P m → m ≡ ok a → P a
Ensures-result P m a h e = subst (Ensures P) e h

pub Ensures-if {ℓ} :
    {A : Type ℓ} (P : A → Type 0) (b : Bool) (m n : Checked A)
    → (b ≡ true → Ensures P m)
    → (b ≡ false → Ensures P n)
    → Ensures P (if b then m else n)
Ensures-if P true m n h k = h refl
Ensures-if P false m n h k = k refl
