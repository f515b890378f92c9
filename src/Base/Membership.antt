-- ===== src/Base/Membership.antt =====
-- `x in xs` for texts, against membership.
use mathlib.Core.Bool.{false≢true}
use mathlib.Core.List.{Memᴰ}
use lumina_framework.Base.{
  String, true, List, [], ◌∷◌, ◌≡◌, refl, sym, inl, inr, arith, Bool-cases, elem, str_eq,
  eq_of_test, test_of_eq,
}

pub Memᴰ-of_elem : (x : String) (xs : List String) → elem x xs ≡ true → Memᴰ x xs
unfolding elem
Memᴰ-of_elem x [] h = absurd (false≢true h)
Memᴰ-of_elem x (y ∷ ys) h = elim (Bool-cases (str_eq y x)) [
  | inl e ↦ Memᴰ.head (sym (eq_of_test y x e))
  | inr n ↦ Memᴰ.tail (Memᴰ-of_elem x ys (ground arith))
]

pub elem_of_Memᴰ : (x : String) (xs : List String) → Memᴰ x xs → elem x xs ≡ true
unfolding elem
elem_of_Memᴰ x [] m = elim m [ ]
elem_of_Memᴰ x (y ∷ ys) (Memᴰ.head e) = rw (test_of_eq y x (sym e)) refl
elem_of_Memᴰ x (y ∷ ys) (Memᴰ.tail m) = let found = elem_of_Memᴰ x ys m in ground (arith, found)
