-- ===== src/Base/Select.antt =====
-- Comprehensions with a condition and `next((x for x in xs if …), None)`, and what they select.
use mathlib.Core.Path.{◌≡◌, refl, sym, subst}
use mathlib.Core.Logic.{inl, inr}
use mathlib.Core.Bool.{Bool, true}
use mathlib.Core.Option.{Option, none, some}
use mathlib.Core.List.{List, [], ◌∷◌, Memᴰ, Permᴰ}
use mathlib.Core.List.Permᴰ
use lumina_framework.Base.Tests.{if◌then◌else◌, Bool-cases}
use lumina_framework.Base.Lists.{All, All-mem, All-Memᴰ}
use lumina_framework.Base.Sorting.{sort, All-sort, All-of-sort}

pub some_injective : {A : Type 0} {a b : A} → some a ≡ some b → a ≡ b
some_injective h = cc

module _ {A : Type 0} (test : A → Bool) where
  unfoldable pub filter : List A → List A
  filter [] = []
  filter (x ∷ xs) = let rest = filter xs in if test x then x ∷ rest else rest

  unfoldable pub find : List A → Option A
  find [] = none
  find (x ∷ xs) = if test x then some x else find xs

  Memᴰ-cons :
      {a x : A} {xs ys : List A}
      → test x ≡ true
      → (Memᴰ a ys → Memᴰ a xs × (test a ≡ true))
      → Memᴰ a (x ∷ ys)
      → Memᴰ a (x ∷ xs) × (test a ≡ true)
  Memᴰ-cons t keep (Memᴰ.head e) = (Memᴰ.head e, rw e t)
  Memᴰ-cons t keep (Memᴰ.tail n) = let (k, u) = keep n in (Memᴰ.tail k, u)

  pub Memᴰ-filter : {a : A} (xs : List A) → Memᴰ a (filter xs) → Memᴰ a xs × (test a ≡ true)
  unfolding filter
  Memᴰ-filter [] m = elim m [ ]
  Memᴰ-filter (x ∷ xs) m = elim (Bool-cases (test x)) [
    | inl t ↦ Memᴰ-cons t (Memᴰ-filter xs) (rw t at m)
    | inr t ↦ let (n, u) = Memᴰ-filter xs (rw t at m) in (Memᴰ.tail n, u)
  ]

  pub filter-Memᴰ : {a : A} (xs : List A) → Memᴰ a xs → test a ≡ true → Memᴰ a (filter xs)
  unfolding filter
  filter-Memᴰ [] m t = elim m [ ]
  filter-Memᴰ (x ∷ xs) (Memᴰ.head e) t = rw (subst (λ y. test y ≡ true) e t) (Memᴰ.head e)
  filter-Memᴰ (x ∷ xs) (Memᴰ.tail m) t = elim (Bool-cases (test x)) [
    | inl u ↦ rw u (Memᴰ.tail (filter-Memᴰ xs m t))
    | inr u ↦ rw u (filter-Memᴰ xs m t)
  ]

  pub find-Memᴰ : {a : A} (xs : List A) → find xs ≡ some a → Memᴰ a xs × (test a ≡ true)
  unfolding find
  find-Memᴰ [] h = cc
  find-Memᴰ (x ∷ xs) h = elim (Bool-cases (test x)) [
    | inl t ↦
        let e = some_injective (rw t at h) in (Memᴰ.head (sym e), subst (λ y. test y ≡ true) e t)
    | inr t ↦ let (m, u) = find-Memᴰ xs (rw t at h) in (Memᴰ.tail m, u)
  ]

module _ {A : Type 0} (test : A → Bool) where
  pub filter-Permᴰ : {xs ys : List A} → Permᴰ xs ys → Permᴰ (filter test xs) (filter test ys)
  unfolding filter
  filter-Permᴰ Permᴰ.nil = Permᴰ.nil
  filter-Permᴰ (Permᴰ.cons {a} {b} e p) = rw (← e) (elim (Bool-cases (test a)) [
    | inl t ↦ rw t (Permᴰ.cons refl (filter-Permᴰ p))
    | inr t ↦ rw t (filter-Permᴰ p)
  ])
  filter-Permᴰ (Permᴰ.swap {a} {b} {a'} {b'} {l} e f) =
      rw (← e, ← f)
        (elim (Bool-cases (test a)) [
          | inl t ↦ elim (Bool-cases (test b)) [
            | inl u ↦ rw (t, u) (Permᴰ.swap refl refl)
            | inr u ↦ rw (t, u) (Permᴰ.refl _)
          ]
          | inr t ↦ rw t (Permᴰ.refl _)
        ])
  filter-Permᴰ (Permᴰ.trans p q) = Permᴰ.trans (filter-Permᴰ p) (filter-Permᴰ q)

  pub All-filter : (P : A → Type 0) (xs : List A) → All P xs → All P (filter test xs)
  unfolding filter
  All-filter P [] ps = tt
  All-filter P (x ∷ xs) ps = elim (Bool-cases (test x)) [
    | inl t ↦ rw t (ps.0, All-filter P xs ps.1)
    | inr t ↦ rw t (All-filter P xs ps.1)
  ]

module _ {A : Type 0} (before : A → A → Bool) where
  pub Memᴰ-sort : {a : A} (xs : List A) → Memᴰ a (sort before xs) → Memᴰ a xs
  Memᴰ-sort xs m = All-mem (λ a. Memᴰ a xs) (All-sort before (λ a. Memᴰ a xs) xs (All-Memᴰ xs)) m

  pub sort-Memᴰ : {a : A} (xs : List A) → Memᴰ a xs → Memᴰ a (sort before xs)
  sort-Memᴰ xs m =
      All-mem (λ a. Memᴰ a (sort before xs))
        (All-of-sort before (λ a. Memᴰ a (sort before xs)) xs (All-Memᴰ (sort before xs))) m
