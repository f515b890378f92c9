-- ===== src/Base/Order.antt =====
-- Python's order on texts: by the code points, from the left.
use Prim.Native.Char.{code}
use text.Mathlib.TextEquality.{Char-path}
use lumina_framework.Base.{String, Bool, true, false, ◌≡◌, refl, arith, ltb, ◌==◌, ◌&&◌, ◌||◌}

-- `a <= b`
unfoldable pub text_leb : String → String → Bool
text_leb String.[] b = true
text_leb (String.◌∷◌ c a) String.[] = false
text_leb (String.◌∷◌ c a) (String.◌∷◌ d b) =
    ltb (code c) (code d) || (code c == code d && text_leb a b)

pub text_leb_total : (a b : String) → text_leb a b ≡ false → text_leb b a ≡ true
unfolding text_leb
text_leb_total String.[] b h = cc
text_leb_total (String.◌∷◌ c a) String.[] h = refl
text_leb_total (String.◌∷◌ c a) (String.◌∷◌ d b) h = ground (arith, text_leb_total a b)

pub text_leb_trans :
    (a b c : String) → text_leb a b ≡ true → text_leb b c ≡ true → text_leb a c ≡ true
unfolding text_leb
text_leb_trans String.[] b c p q = refl
text_leb_trans (String.◌∷◌ x a) String.[] c p q = cc
text_leb_trans (String.◌∷◌ x a) (String.◌∷◌ y b) String.[] p q = cc
text_leb_trans (String.◌∷◌ x a) (String.◌∷◌ y b) (String.◌∷◌ z c) p q =
    ground (arith, text_leb_trans a b c)

pub text_leb_antisymm : (a b : String) → text_leb a b ≡ true → text_leb b a ≡ true → a ≡ b
unfolding text_leb
text_leb_antisymm String.[] String.[] p q = refl
text_leb_antisymm String.[] (String.◌∷◌ d b) p q = cc
text_leb_antisymm (String.◌∷◌ c a) String.[] p q = cc
text_leb_antisymm (String.◌∷◌ c a) (String.◌∷◌ d b) p q =
    let tails : a ≡ b = text_leb_antisymm a b (ground arith) (ground arith) in
    let heads : c ≡ d = Char-path c d (ground arith) in cc
