-- ===== src/Base/Text.antt =====
-- Python's tests on texts: membership of a text in a list, and `needle in text`.
use Prim.Native.Nat.{ℕ}
use lumina_framework.Base.Tests.{◌==◌ as nat_eq, leb, if◌then◌else◌}
use Prim.Native.Char.{code}
use Prim.Native.String.{String}
use mathlib.Core.Path.{◌≡◌, refl}
use mathlib.Core.Logic.{◌≢◌}
use mathlib.Core.Bool.{Bool, true, false, ◌||◌, ◌&&◌}
use native.Mathlib.Omega.{arith}
use text.Mathlib.TextEquality.{eq_iff}
use mathlib.Core.List.{List, [], ◌∷◌}
use text.Mathlib.Text.{◌==◌}

-- `x in xs` for a list of texts.
unfoldable pub elem : String → List String → Bool
elem x [] = false
elem x (y ∷ ys) = y == x || elem x ys

-- `text.startswith(needle)`, character by character.
unfoldable pub is_prefix : String → String → Bool
is_prefix String.[] s = true
is_prefix (String.◌∷◌ c needle) String.[] = false
is_prefix (String.◌∷◌ c needle) (String.◌∷◌ d s) = nat_eq (code c) (code d) && is_prefix needle s

-- `needle in text`: some suffix of the text starts with the needle.
unfoldable pub is_infix : String → String → Bool
unfolding is_prefix
is_infix needle String.[] = needle == ""
is_infix needle (String.◌∷◌ c s) = is_prefix needle (String.◌∷◌ c s) || is_infix needle s

-- The characters that `str.strip` removes, by their code points.
unfoldable pub is_space : ℕ → Bool
is_space c =
    (leb 9 c && leb c 13)
    || (leb 28 c && leb c 32)
    || nat_eq c 133
    || nat_eq c 160
    || nat_eq c 5760
    || (leb 8192 c && leb c 8202)
    || nat_eq c 8232
    || nat_eq c 8233
    || nat_eq c 8239
    || nat_eq c 8287
    || nat_eq c 12288

unfoldable pub lstrip : String → String
unfolding is_space
lstrip String.[] = String.[]
lstrip (String.◌∷◌ c s) = if is_space (code c) then lstrip s else String.◌∷◌ c s

unfoldable pub rstrip : String → String
unfolding is_space
rstrip String.[] = String.[]
rstrip (String.◌∷◌ c s) =
    let rest = rstrip s in if rest == "" && is_space (code c) then String.[] else String.◌∷◌ c rest

-- `text.strip()`
unfoldable pub strip : String → String
unfolding lstrip rstrip
strip s = rstrip (lstrip s)

-- The empty text is in every text.
pub is_infix-empty : (s : String) → is_infix "" s ≡ true
unfolding is_infix
is_infix-empty String.[] = refl
is_infix-empty (String.◌∷◌ c s) = refl

-- The code points of a text.
abbrev pub codes : String → List ℕ
codes String.[] = []
codes (String.◌∷◌ c s) = code c ∷ codes s

pub eq_of_test : (a b : String) → (a == b) ≡ true → a ≡ b
eq_of_test a b h = (eq_iff a b).0 h

pub test_of_eq : (a b : String) → a ≡ b → (a == b) ≡ true
test_of_eq a b h = (eq_iff a b).1 h

pub ne_of_test : (a b : String) → (a == b) ≡ false → a ≢ b
ne_of_test a b h e = ground (arith, eq_iff a b)

pub test_of_ne : (a b : String) → a ≢ b → (a == b) ≡ false
test_of_ne a b h = ground (arith, eq_iff a b)
