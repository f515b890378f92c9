-- ===== src/Base/Outcome.antt =====
-- Code that may raise: a value, or the exception as data.
use mathlib.Core.Path.{◌≡◌, refl, sym, subst}
use mathlib.Core.Logic.{◌⊎◌, inl, inr}
use mathlib.Core.Option.{Option, none, some}

-- `d.get(key, default)`
abbrev pub get_or {ℓ} : {A : Type ℓ} → Option A → A → A
get_or none d = d
get_or (some a) d = a

pub data Result {ℓ κ} (E : Type ℓ) (A : Type κ) : Type (ℓ ⊔ κ) where
  ok : A → Result E A
  err : E → Result E A

infixl 5 ◌>>=◌
abbrev pub ◌>>=◌ {ℓ κ ι} :
    {E : Type ℓ} {A : Type κ} {B : Type ι} → Result E A → (A → Result E B) → Result E B
ok a >>= f = f a
err e >>= f = err e

-- What a computation that returned went through: its first step returned, and so did the rest.
module _ {ℓ κ ι} {Exc : Type ℓ} {X : Type κ} {Y : Type ι} where
  pub bind-inversion :
      (first : Result Exc X) (then_do : X → Result Exc Y) {y : Y}
      → (first >>= then_do) ≡ ok y
      → (x : X) × (first ≡ ok x) × (then_do x ≡ ok y)
  bind-inversion (err e) then_do returned = cc
  bind-inversion (ok x) then_do returned = (x, refl, returned)

module _ {ℓ κ} {E : Type ℓ} {A : Type κ} where
  pub ok-injective : {a b : A} → ◌≡◌ {A = Result E A} (ok a) (ok b) → a ≡ b
  ok-injective h = cc

  pub ok-ne-err : {a : A} {e : E} → ◌≡◌ {A = Result E A} (ok a) (err e) → ⊥
  ok-ne-err h = cc

  pub Result-cases : (r : Result E A) → ((a : A) × (r ≡ ok a)) ⊎ ((e : E) × (r ≡ err e))
  Result-cases (ok a) = inl (a, refl)
  Result-cases (err e) = inr (e, refl)

module _ {ℓ κ ι} {Exc : Type ℓ} {X : Type κ} {Y : Type ι} where
  pub bind-cong :
      (first : Result Exc X) (f g : X → Result Exc Y)
      → ((x : X) → f x ≡ g x)
      → (first >>= f) ≡ (first >>= g)
  bind-cong (err e) f g same = refl
  bind-cong (ok x) f g same = same x

-- What a computation returns, where it returns, has a property.
pub record Ensures {ℓ κ ι} {E : Type ℓ} {A : Type κ} (P : A → Type ι) (r : Result E A)
    : Type (ℓ ⊔ κ ⊔ ι) where
  pub returned : (a : A) → r ≡ ok a → P a

module _ {ℓ κ ι ρ} {Exc : Type ℓ} {X : Type κ} {Y : Type ι} {P : Y → Type ρ} where
  pub Ensures-bind :
      (first : Result Exc X) (then_do : X → Result Exc Y)
      → ((x : X) → first ≡ ok x → Ensures P (then_do x))
      → Ensures P (first >>= then_do)
  Ensures-bind (err e) then_do rest = record { returned = λ y h. absurd (ok-ne-err (sym h)) }
  Ensures-bind (ok x) then_do rest = rest x refl

module _ {ℓ κ ι} {Exc : Type ℓ} {Y : Type κ} {P : Y → Type ι} where
  pub Ensures-ok : (y : Y) → P y → Ensures {E = Exc} P (ok y)
  Ensures-ok y p = record { returned = λ z h. subst P (ok-injective h) p }
