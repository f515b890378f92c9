-- ===== src/Base/Counting.antt =====
-- How often a text stands in a list, and what that says of the list's length and of its sorted form.
use Prim.Native.Nat.{ℕ, suc, ◌+◌, ◌≤◌, ◌<◌}
use Prim.Native.String.{String}
use mathlib.Core.Path.{◌≡◌, refl}
use mathlib.Core.Bool.{Bool, true}
use mathlib.Core.List.{List, [], ◌∷◌, ◌++◌}
use native.Mathlib.Omega.{arith}
use text.Mathlib.Text.{◌==◌ as str_eq}
use text.Mathlib.TextEquality.{eq_iff}
use lumina_framework.Base.Tests.{if◌then◌else◌}
use lumina_framework.Base.Lists.{length}
use lumina_framework.Base.Text.{elem}
use lumina_framework.Base.Sorting.{sort, insert}

unfoldable pub count : String → List String → ℕ
count id [] = 0
count id (k ∷ ks) = let rest = count id ks in if str_eq k id then suc rest else rest

pub count-append : (c : String) (xs ys : List String) → count c (xs ++ ys) ≡ count c xs + count c ys
unfolding count
count-append c [] ys = omega arith
count-append c (x ∷ xs) ys = ground (arith, count-append c xs ys)

-- The sum of two tests' worth.
pub count-snoc :
    (c x : String) (xs : List String)
    → count c (xs ++ x ∷ []) ≡ count c xs + (if str_eq x c then 1 else 0)
unfolding count
count-snoc c x xs = ground (arith, count-append c xs (x ∷ []))

pub elem-count : (c : String) (xs : List String) → (elem c xs ≡ true) → 0 < count c xs
unfolding elem count
elem-count c [] h = cc
elem-count c (x ∷ xs) h = ground (arith, elem-count c xs)

pub count-elem : (c : String) (xs : List String) → 0 < count c xs → elem c xs ≡ true
unfolding elem count
count-elem c [] h = absurd (omega arith)
count-elem c (x ∷ xs) h = ground (arith, count-elem c xs)

module _ (before : String → String → Bool) where
  count-insert : (c x : String) (xs : List String) → count c (insert before x xs) ≡ count c (x ∷ xs)
  unfolding count insert
  count-insert c x [] = refl
  count-insert c x (y ∷ ys) = ground (arith, count-insert c x ys)

  pub count-sort : (c : String) (xs : List String) → count c (sort before xs) ≡ count c xs
  unfolding count sort
  count-sort c [] = refl
  count-sort c (x ∷ xs) = ground (arith, count-insert c x (sort before xs), count-sort c xs)

-- The list without its first `x`.
unfoldable delete : String → List String → List String
delete x [] = []
delete x (y ∷ ys) = let rest = delete x ys in if str_eq y x then ys else y ∷ rest

count-delete :
    (c x : String) (ys : List String)
    → 0 < count x ys
    → count c (delete x ys) + (if str_eq x c then 1 else 0) ≡ count c ys
unfolding count delete
count-delete c x [] h = omega arith
count-delete c x (y ∷ ys) h =
    ground (arith, eq_iff y x, eq_iff x c, eq_iff y c, count-delete c x ys)

length-delete :
    (x : String) (ys : List String) → 0 < count x ys → suc (length (delete x ys)) ≡ length ys
unfolding count delete
length-delete x [] h = omega arith
length-delete x (y ∷ ys) h = ground (arith, length-delete x ys)

-- A list within another, copies counted, is no longer; and where it is as long, they count the same.
abbrev pub IsWithin : List String → List String → Type 0
IsWithin xs ys = (c : String) → count c xs ≤ count c ys

IsWithin-tail :
    (x : String) (xs ys : List String)
    → IsWithin (x ∷ xs) ys
    → (0 < count x ys) × IsWithin xs (delete x ys)
unfolding count
IsWithin-tail x xs ys h =
    let here : 0 < count x ys = ground (arith, h x, eq_iff x x) in
    (here, λ c. ground (arith, h c, count-delete c x ys here))

pub length-IsWithin : (xs ys : List String) → IsWithin xs ys → length xs ≤ length ys
length-IsWithin [] ys h = omega arith
length-IsWithin (x ∷ xs) ys h =
    let (here, rest) = IsWithin-tail x xs ys h in
    omega (arith, length-IsWithin xs (delete x ys) rest, length-delete x ys here)

pub IsWithin-full :
    (xs ys : List String)
    → IsWithin xs ys
    → length ys ≤ length xs
    → (c : String) → count c xs ≡ count c ys
unfolding count
IsWithin-full [] [] h n c = refl
IsWithin-full [] (y ∷ ys) h n c = omega arith
IsWithin-full (x ∷ xs) ys h n c =
    let (here, rest) = IsWithin-tail x xs ys h in
    let shorter = length-delete x ys here in
    ground (arith, IsWithin-full xs (delete x ys) rest (omega arith) c, count-delete c x ys here)
