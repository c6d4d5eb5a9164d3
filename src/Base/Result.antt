-- ===== src/Base/Result.antt =====
-- What a Go function with an error leaves: a result, an error that it returns, or a panic.
use mathlib.Core.Path.{◌≡◌, refl}

pub data Result {ℓ} (A : Type ℓ) : Type ℓ where
  ok : A → Result A
  err : Result A
  panic : Result A

infixl 5 ◌>>=◌
abbrev pub ◌>>=◌ {ℓ κ} : {A : Type ℓ} {B : Type κ} → Result A → (A → Result B) → Result B
ok a >>= f = f a
err >>= f = err
panic >>= f = panic

pub ok-injective {ℓ} : {A : Type ℓ} {a b : A} → ok a ≡ ok b → a ≡ b
ok-injective same = cc

-- Both calls of a chain that gives a result have given one.
pub bind-eq-ok {ℓ κ} :
    {A : Type ℓ} {B : Type κ} {b : B} (call : Result A) (next : A → Result B)
    → call >>= next ≡ ok b
    → (a : A) × (call ≡ ok a) × (next a ≡ ok b)
bind-eq-ok panic next done = cc
bind-eq-ok err next done = cc
bind-eq-ok (ok a) next done = (a, refl, done)
