-- ===== src/Prelude/Outcome.antt =====
-- A Go result `(value, error)`: the value, or the text of the error.
use mathlib.Core.Path.{◌≡◌, refl}
use mathlib.Core.Logic.{◌⊎◌, inl, inr}
use imsai_8080_esp_tty_gtw.Prelude.Text.{Bytes}

pub data Result {ℓ} (A : Type ℓ) : Type ℓ where
  ok : A → Result A
  err : Bytes → Result A

infixl 5 ◌>>=◌
abbrev pub ◌>>=◌ {ℓ κ} : {A : Type ℓ} {B : Type κ} → Result A → (A → Result B) → Result B
ok a >>= f = f a
err e >>= f = err e

-- A chain that succeeds succeeds in its first part.
pub ok-bind {ℓ κ} :
    {A : Type ℓ} {B : Type κ} (first : Result A) (then_do : A → Result B) {result : B}
    → (first >>= then_do) ≡ ok result
    → (mid : A) × (first ≡ ok mid) × (then_do mid ≡ ok result)
ok-bind (ok mid) then_do done = (mid, refl, done)
ok-bind (err why) then_do done = cc

pub ok-injective {ℓ} : {A : Type ℓ} {a b : A} → ok a ≡ ok b → a ≡ b
ok-injective e = cc

pub Result-cases {ℓ} :
    {A : Type ℓ} (r : Result A) → ((e : Bytes) × (r ≡ err e)) ⊎ ((a : A) × (r ≡ ok a))
Result-cases (err e) = inl (e, refl)
Result-cases (ok a) = inr (a, refl)
