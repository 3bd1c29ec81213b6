-- ===== src/Prelude/Results.antt =====
-- A call that returns or raises, generic in what it raises.
use mathlib.Core.Path.{◌≡◌, refl}
use mathlib.Core.Logic.{◌⊎◌, inl, inr}
use mathlib.Core.Bool.{Bool, true, false}

pub data Result {ℓ κ} (E : Type ℓ) (A : Type κ) : Type (ℓ ⊔ κ) where
  ok : A → Result E A
  err : E → Result E A

-- A raise ends the call; what follows runs on a returned value only.
infixl 5 ◌>>=◌
abbrev pub ◌>>=◌ {ℓ κ μ} :
    {Exn : Type ℓ} {A : Type κ} {B : Type μ} → Result Exn A → (A → Result Exn B) → Result Exn B
err raised >>= after = err raised
ok value >>= after = after value

infixl 5 ◌>>◌
abbrev pub ◌>>◌ {ℓ κ μ} :
    {Exn : Type ℓ} {A : Type κ} {B : Type μ} → Result Exn A → Result Exn B → Result Exn B
check >> rest = check >>= λ passed. rest

-- `if test: raise exn`
abbrev pub raise_if {ℓ} : {Exn : Type ℓ} → Bool → Exn → Result Exn (Unit {0})
raise_if false exn = ok tt
raise_if true exn = err exn

pub ok_injective {ℓ κ} :
    {Exn : Type ℓ} {A : Type κ} {a b : A} → (let r : Result Exn A = ok a in r) ≡ ok b → a ≡ b
ok_injective same = cc

-- The two ways in which a call ends.
pub Result-cases {ℓ κ} :
    {E : Type ℓ} {A : Type κ} (m : Result E A) → ((a : A) × (m ≡ ok a)) ⊎ ((e : E) × (m ≡ err e))
Result-cases (ok a) = inl (a, refl)
Result-cases (err e) = inr (e, refl)

-- A chain of two calls that returned: the first one returned, and so did the second on its value.
pub >>=-eq-ok {ℓ κ μ} :
    {Exn : Type ℓ} {A : Type κ} {B : Type μ} (first : Result Exn A) (next : A → Result Exn B)
    {b : B}
    → first >>= next ≡ ok b
    → (value : A) × (first ≡ ok value) × (next value ≡ ok b)
>>=-eq-ok (err raised) next returned = cc
>>=-eq-ok (ok value) next returned = (value, refl, returned)
