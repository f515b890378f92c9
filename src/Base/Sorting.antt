-- ===== src/Base/Sorting.antt =====
-- Python's `sorted`, as a stable insertion sort by a Boolean test, and what the callers rely on.
use mathlib.Core.List.{Permᴰ}
use mathlib.Core.Path.{◌≡◌, refl, ◌∙◌, subst}
use mathlib.Core.Bool.{Bool, true, false}
use mathlib.Core.Logic.{inl, inr}
use mathlib.Core.List.{List, [], ◌∷◌}
use native.Mathlib.Omega.{arith}
use lumina_framework.Base.Tests.{if◌then◌else◌, Bool-cases}
use lumina_framework.Base.Lists.{All}

module _ {A : Type 0} (before : A → A → Bool) where
  unfoldable pub insert : A → List A → List A
  insert x [] = x ∷ []
  insert x (y ∷ ys) = let rest = insert x ys in if before x y then x ∷ y ∷ ys else y ∷ rest

  unfoldable pub sort : List A → List A
  unfolding insert
  sort [] = []
  sort (x ∷ xs) = insert x (sort xs)

pub record IsTotalOrder {A : Type 0} (before : A → A → Bool) : Type 0 where
  pub total : (a b : A) → before a b ≡ false → before b a ≡ true
  pub trans : (a b c : A) → before a b ≡ true → before b c ≡ true → before a c ≡ true

module _ {A : Type 0} (before : A → A → Bool) where
  pub All-insert :
      (P : A → Type 0) (x : A) (ys : List A) → P x → All P ys → All P (insert before x ys)
  unfolding insert
  All-insert P x [] p ps = (p, tt)
  All-insert P x (y ∷ ys) p ps = elim (Bool-cases (before x y)) [
    | inl e ↦ rw e (p, ps)
    | inr e ↦ rw e (ps.0, All-insert P x ys p ps.1)
  ]

  pub All-sort : (P : A → Type 0) (xs : List A) → All P xs → All P (sort before xs)
  unfolding sort
  All-sort P [] ps = tt
  All-sort P (x ∷ xs) ps = All-insert P x (sort before xs) ps.0 (All-sort P xs ps.1)

  All-of-insert :
      (P : A → Type 0) (x : A) (ys : List A) → All P (insert before x ys) → P x × All P ys
  unfolding insert
  All-of-insert P x [] ps = ps
  All-of-insert P x (y ∷ ys) ps = elim (Bool-cases (before x y)) [
    | inl e ↦ rw e at ps
    | inr e ↦
        let qs : P y × All P (insert before x ys) = rw e at ps in
        let rest = All-of-insert P x ys qs.1 in (rest.0, (qs.0, rest.1))
  ]

  pub All-of-sort : (P : A → Type 0) (xs : List A) → All P (sort before xs) → All P xs
  unfolding sort
  All-of-sort P [] ps = tt
  All-of-sort P (x ∷ xs) ps =
      let rest = All-of-insert P x (sort before xs) ps in (rest.0, All-of-sort P xs rest.1)

  abbrev pub IsSorted : List A → Type 0
  IsSorted [] = Unit
  IsSorted (x ∷ xs) = All (λ y. before x y ≡ true) xs × IsSorted xs

module _ {A : Type 0} (before : A → A → Bool) (order : IsTotalOrder before) where
  All-trans :
      (x y : A) (zs : List A)
      → before x y ≡ true
      → All (λ z. before y z ≡ true) zs
      → All (λ z. before x z ≡ true) zs
  All-trans x y [] e h = tt
  All-trans x y (z ∷ zs) e h = (order.trans x y z e h.0, All-trans x y zs e h.1)

  insert-IsSorted :
      (x : A) (ys : List A) → IsSorted before ys → IsSorted before (insert before x ys)
  unfolding insert
  insert-IsSorted x [] s = (tt, tt)
  insert-IsSorted x (y ∷ ys) s = elim (Bool-cases (before x y)) [
    | inl e ↦ rw e ((e, All-trans x y ys e s.0), s)
    | inr e ↦ rw e (
      All-insert before (λ z. before y z ≡ true) x ys (order.total x y e) s.0,
      insert-IsSorted x ys s.1,
    )
  ]

  pub sort-IsSorted : (xs : List A) → IsSorted before (sort before xs)
  unfolding sort
  sort-IsSorted [] = tt
  sort-IsSorted (x ∷ xs) = insert-IsSorted x (sort before xs) (sort-IsSorted xs)

  insert_swap :
      (x y : A) (zs : List A)
      → (before x y ≡ true → before y x ≡ true → x ≡ y)
      → insert before x (insert before y zs) ≡ insert before y (insert before x zs)
  unfolding insert
  insert_swap x y [] same = ground (arith, order.total x y, order.total y x, same)
  insert_swap x y (z ∷ zs) same = ground (
    arith,
    order.total x y,
    order.total y x,
    order.trans x y z,
    order.trans y x z,
    same,
    insert_swap x y zs same,
  )

  module _ (P : A → Type 0)
      (same : (x y : A) → P x → P y → before x y ≡ true → before y x ≡ true → x ≡ y) where
    All-Permᴰ : {xs ys : List A} → Permᴰ xs ys → All P xs → All P ys
    All-Permᴰ Permᴰ.nil ps = tt
    All-Permᴰ (Permᴰ.cons e p) ps = (subst P e ps.0, All-Permᴰ p ps.1)
    All-Permᴰ (Permᴰ.swap e f) ps = (subst P f ps.1.0, (subst P e ps.0, ps.1.1))
    All-Permᴰ (Permᴰ.trans p q) ps = All-Permᴰ q (All-Permᴰ p ps)

    -- The order of the input does not matter, where equal keys mean equal elements.
    pub sort-Permᴰ : {xs ys : List A} → Permᴰ xs ys → All P xs → sort before xs ≡ sort before ys
    unfolding sort
    sort-Permᴰ Permᴰ.nil ps = refl
    sort-Permᴰ (Permᴰ.cons {a} {b} {l₁} {l₂} e p) ps = rw (e, sort-Permᴰ p ps.1)
    sort-Permᴰ (Permᴰ.swap {a} {b} {a'} {b'} {l} e f) ps =
        rw (← e, ← f) (insert_swap a b (sort before l) (same a b ps.0 ps.1.0))
    sort-Permᴰ (Permᴰ.trans p q) ps = sort-Permᴰ p ps ∙ sort-Permᴰ q (All-Permᴰ p ps)
