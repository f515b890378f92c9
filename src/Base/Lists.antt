-- ===== src/Base/Lists.antt =====
-- Lists measured by native numbers, under the library's names, and predicates on lists.
use Prim.Native.Nat.{ℕ, zero, suc, ◌+◌, ◌-◌, min}
use mathlib.Core.Path.{◌≡◌, refl, sym, subst}
use mathlib.Core.List.{List, [], ◌∷◌, ◌++◌, Memᴰ}
use native.Mathlib.Omega.{arith}

module _ {ℓ} {A : Type ℓ} where
  abbrev pub length : List A → ℕ
  length [] = 0
  length (x ∷ xs) = suc (length xs)

  abbrev pub take : ℕ → List A → List A
  take zero xs = []
  take (suc n) [] = []
  take (suc n) (x ∷ xs) = x ∷ take n xs

  abbrev pub drop : ℕ → List A → List A
  drop zero xs = xs
  drop (suc n) [] = []
  drop (suc n) (x ∷ xs) = drop n xs

  pub cons_ne_nil : {x : A} {xs : List A} → x ∷ xs ≡ [] → ⊥
  cons_ne_nil h = cc

  pub append_nil : (xs ys : List A) → xs ++ ys ≡ [] → (xs ≡ []) × (ys ≡ [])
  append_nil [] ys h = (refl, h)
  append_nil (x ∷ xs) ys h = cc

  pub length-append : (xs ys : List A) → length (xs ++ ys) ≡ length xs + length ys
  length-append [] ys = omega arith
  length-append (x ∷ xs) ys = omega (arith, length-append xs ys)

  pub length-take : (n : ℕ) (xs : List A) → length (take n xs) ≡ min n (length xs)
  length-take zero xs = omega arith
  length-take (suc n) [] = omega arith
  length-take (suc n) (x ∷ xs) = omega (arith, length-take n xs)

  pub length-drop : (n : ℕ) (xs : List A) → length (drop n xs) ≡ length xs - n
  length-drop zero xs = omega arith
  length-drop (suc n) [] = omega arith
  length-drop (suc n) (x ∷ xs) = omega (arith, length-drop n xs)

module _ {ℓ κ} {A : Type ℓ} where
  abbrev pub All : (A → Type κ) → List A → Type κ
  All P [] = Unit
  All P (x ∷ xs) = P x × All P xs

module _ {ℓ κ} {A : Type ℓ} (P : A → Type κ) where
  pub All-mem : {a : A} {xs : List A} → All P xs → Memᴰ a xs → P a
  All-mem ps (Memᴰ.head e) = subst P (sym e) ps.0
  All-mem ps (Memᴰ.tail m) = All-mem ps.1 m

  pub All-map {ι} : {Q : A → Type ι} (xs : List A) → ((a : A) → Q a → P a) → All Q xs → All P xs
  All-map [] f qs = tt
  All-map (x ∷ xs) f qs = (f x qs.0, All-map xs f qs.1)

module _ {A : Type 0} where
  pub All-Memᴰ : (xs : List A) → All (λ a. Memᴰ a xs) xs
  All-Memᴰ [] = tt
  All-Memᴰ (x ∷ xs) =
      (Memᴰ.head refl, All-map (λ a. Memᴰ a (x ∷ xs)) xs (λ a m. Memᴰ.tail m) (All-Memᴰ xs))
