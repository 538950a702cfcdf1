-- ===== src/Prelude/Result.antt =====
-- Code that raises, as values: `ok`, or `err` with the exception.
use mathlib.Core.Logic.{◌⊎◌, inl, inr}
use mathlib.Core.Path.{◌≡◌, refl}

pub data Result {ℓ} (E A : Type ℓ) : Type ℓ where
  ok : A → Result E A
  err : E → Result E A

infixl 5 ◌>>=◌ ◌>>◌
abbrev pub ◌>>=◌ {ℓ} : {E A B : Type ℓ} → Result E A → (A → Result E B) → Result E B
ok a >>= f = f a
err e >>= f = err e

abbrev pub ◌>>◌ {ℓ} : {E A B : Type ℓ} → Result E A → Result E B → Result E B
m >> k = m >>= λ _. k

-- a chain that returns had a first step that returned
pub >>=-eq-ok {ℓ} :
    {E A B : Type ℓ} (run : Result E A) (next : A → Result E B) {out : B}
    → (run >>= next) ≡ ok out
    → (x : A) × (run ≡ ok x) × (next x ≡ ok out)
>>=-eq-ok (err raised) next returned = cc
>>=-eq-ok (ok x) next returned = (x, refl, returned)

pub Result-cases {ℓ} :
    {E : Type ℓ} {A : Type ℓ} (r : Result E A) → ((e : E) × (r ≡ err e)) ⊎ ((a : A) × (r ≡ ok a))
Result-cases (err e) = inl (e, refl)
Result-cases (ok a) = inr (a, refl)

pub ok_inj {ℓ} : (E A : Type ℓ) (a b : A) → ◌≡◌ {A = Result E A} (ok a) (ok b) → a ≡ b
ok_inj E A a b h = cc
