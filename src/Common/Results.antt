-- ===== src/Common/Results.antt =====
-- `std::expected<A, E>`, and `do` blocks over it and over `std::optional`.
use mathlib.Core.Logic.{◌⊎◌, inl, inr}
use mathlib.Core.Option.{Option, none, some}
use mathlib.Core.Path.{◌≡◌, refl}

pub data Result {ℓ κ} (E : Type ℓ) (A : Type κ) : Type (ℓ ⊔ κ) where
  ok : A → Result E A
  err : E → Result E A

infixl 5 ◌>>=◌ ◌>>◌
abbrev pub ◌>>=◌ {ℓ κ ν} :
    {E : Type ℓ} {A : Type κ} {B : Type ν} → Result E A → (A → Result E B) → Result E B
ok a >>= f = f a
err e >>= f = err e

abbrev pub ◌>>◌ {ℓ κ} : {E : Type ℓ} {B : Type κ} → Result E (Unit {0}) → Result E B → Result E B
m >> k = m >>= λ _. k

-- `if (!condition) return std::unexpected(error);`
abbrev pub demand {ℓ} : {E : Type ℓ} → mathlib.Core.Bool.Bool → E → Result E (Unit {0})
demand mathlib.Core.Bool.true e = ok tt
demand mathlib.Core.Bool.false e = err e

pub demand-eq-ok {ℓ} :
    {E : Type ℓ} (b : mathlib.Core.Bool.Bool) (e : E) {u : Unit {0}}
    → demand b e ≡ ok u
    → b ≡ mathlib.Core.Bool.true
demand-eq-ok mathlib.Core.Bool.true e h = refl
demand-eq-ok mathlib.Core.Bool.false e h = cc

-- `has_value()`
abbrev pub is_ok {ℓ κ} : {E : Type ℓ} {A : Type κ} → Result E A → mathlib.Core.Bool.Bool
is_ok (ok a) = mathlib.Core.Bool.true
is_ok (err e) = mathlib.Core.Bool.false

pub bind-eq-ok {ℓ κ ν} :
    {E : Type ℓ} {A : Type κ} {B : Type ν} (m : Result E A) (f : A → Result E B) {b : B}
    → (m >>= f) ≡ ok b
    → (a : A) × (m ≡ ok a) × (f a ≡ ok b)
bind-eq-ok (ok a) f h = (a, refl, h)
bind-eq-ok (err e) f h = cc

pub Result-cases {ℓ κ} :
    {E : Type ℓ} {A : Type κ} (m : Result E A) → ((a : A) × (m ≡ ok a)) ⊎ ((e : E) × (m ≡ err e))
Result-cases (ok a) = inl (a, refl)
Result-cases (err e) = inr (e, refl)

pub ok-injective {ℓ κ} :
    {E : Type ℓ} {A : Type κ} {a b : A} → ◌≡◌ {A = Result E A} (ok a) (ok b) → a ≡ b
ok-injective h = cc

-- the chain of `std::optional` results
abbrev pub then_some {ℓ κ} : {A : Type ℓ} {B : Type κ} → Option A → (A → Option B) → Option B
then_some none f = none
then_some (some a) f = f a
