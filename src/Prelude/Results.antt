-- ===== src/Prelude/Results.antt =====
-- What a Go call returns: its values, an `error`, or a panic.
use mathlib.Core.Path.{◌≡◌, refl}
use mathlib.Core.Logic.{◌⊎◌, inl, inr}

pub data Result {ℓ} (E A : Type ℓ) : Type ℓ where
  ok : A → Result E A
  err : E → Result E A
  panic : Result E A

infixl 5 ◌>>=◌ ◌>>◌
abbrev pub ◌>>=◌ {ℓ} : {E A B : Type ℓ} → Result E A → (A → Result E B) → Result E B
call >>= next = elim call [ panic ↦ panic | err e ↦ err e | ok value ↦ next value ]

abbrev pub ◌>>◌ {ℓ} : {E A B : Type ℓ} → Result E A → Result E B → Result E B
first >> second = first >>= λ _. second

-- The split of a call without a value.
pub Result-cases {ℓ} :
    {E : Type ℓ} (r : Result E (Unit {ℓ})) → (r ≡ ok tt) ⊎ (((e : E) × (r ≡ err e)) ⊎ (r ≡ panic))
Result-cases (ok u) = inl refl
Result-cases (err e) = inr (inl (e, refl))
Result-cases panic = inr (inr refl)

-- The split of any call.
pub Result-split {ℓ} :
    {E A : Type ℓ} (r : Result E A)
    → ((a : A) × (r ≡ ok a)) ⊎ (((e : E) × (r ≡ err e)) ⊎ (r ≡ panic))
Result-split (ok a) = inl (a, refl)
Result-split (err e) = inr (inl (e, refl))
Result-split panic = inr (inr refl)
