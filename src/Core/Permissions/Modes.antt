-- ===== src/Core/Permissions/Modes.antt =====
-- The octal modes, the symbolic notation and the role tiers of src/lumina/core/permissions.py.
use Prim.Native.Char.{Char, code}
use lumina_framework.Base.{
  get_or, ℕ, zero, suc, ◌+◌, ◌≤◌, ◌<◌, String, true, Option, none, some, Result, ok, ◌≡◌, refl, ◌⊎◌,
  ◌↔◌, ◌>>=◌, if◌then◌else◌, ◌==◌, arith, bind-inversion, ok-injective, leb, [], ◌∷◌, codes,
}
use lumina_framework.Core.Permissions.Model.{
  Error, Bits, tier_levels, parse_octal, check_min_tier, tier_level,
}
use lumina_framework.Base.Dict.{get}
use lumina_framework.Core.Permissions.Check.{has_bits}

-- The three letters of one category, in front of the rest.
unfoldable pub symbols : ℕ → String → String
unfolding has_bits
symbols bits rest = String.◌∷◌ (if has_bits bits 4 then "r" else "-") (
    String.◌∷◌ (if has_bits bits 2 then "w" else "-")
      (String.◌∷◌ (if has_bits bits 1 then "x" else "-") rest))

unfoldable pub mode_to_symbolic : String → Result Error String
unfolding parse_octal symbols
mode_to_symbolic mode = do
  (owner, group, others) ← parse_octal mode
  ok (symbols owner (symbols group (symbols others "")))

pub parse_octal_lt :
    (mode : String) {b : Bits} → parse_octal mode ≡ ok b → (b.0 < 8) × (b.1 < 8) × (b.2 < 8)
unfolding parse_octal
parse_octal_lt (String.◌∷◌ x (String.◌∷◌ y (String.◌∷◌ z String.[]))) h = ground arith
parse_octal_lt _ h = cc

-- What one letter of the notation stands for.
abbrev read_bit : Char → ℕ → ℕ → Option ℕ
read_bit c letter weight =
    if code c == letter then some weight else if code c == b'-' then some 0 else none

abbrev add_bits : Option ℕ → Option ℕ → Option ℕ → Option ℕ
add_bits (some r) (some w) (some x) = some (r + w + x)
add_bits _ _ _ = none

abbrev triple : Option ℕ → Option ℕ → Option ℕ → Option Bits
triple (some a) (some b) (some c) = some (a, b, c)
triple _ _ _ = none

abbrev read_bits : Char → Char → Char → Option ℕ
read_bits r w x = add_bits (read_bit r b'r' 4) (read_bit w b'w' 2) (read_bit x b'x' 1)

-- The reader of the notation, as `ls -l` prints it: nine letters, in three groups.
pub read_symbolic : String → Option Bits
read_symbolic
      (String.◌∷◌ a (
        String.◌∷◌ b (
          String.◌∷◌ c (
            String.◌∷◌ d (
              String.◌∷◌ e
                (String.◌∷◌ f (String.◌∷◌ g (String.◌∷◌ h (String.◌∷◌ i String.[]))))))))) =
    triple (read_bits a b c) (read_bits d e f) (read_bits g h i)
read_symbolic _ = none

read_bits-symbols :
    (b : ℕ)
    → b < 8
    → read_bits
        (if has_bits b 4 then "r" else "-")
        (if has_bits b 2 then "w" else "-")
        (if has_bits b 1 then "x" else "-")
      ≡ some b
unfolding has_bits
read_bits-symbols zero h = refl
read_bits-symbols (suc zero) h = refl
read_bits-symbols (suc (suc zero)) h = refl
read_bits-symbols (suc (suc (suc zero))) h = refl
read_bits-symbols (suc (suc (suc (suc zero)))) h = refl
read_bits-symbols (suc (suc (suc (suc (suc zero))))) h = refl
read_bits-symbols (suc (suc (suc (suc (suc (suc zero)))))) h = refl
read_bits-symbols (suc (suc (suc (suc (suc (suc (suc zero))))))) h = refl
read_bits-symbols (suc (suc (suc (suc (suc (suc (suc (suc n)))))))) h = absurd (omega arith)

-- The symbolic notation of a mode reads back as the three numbers that `parse_octal` finds in it,
-- each below 8.
pub read_symbolic-mode_to_symbolic :
    (mode : String) {s : String}
    → mode_to_symbolic mode ≡ ok s
    → (b : Bits) × (parse_octal mode ≡ ok b)
      × (read_symbolic s ≡ some b)
      × (b.0 < 8)
      × (b.1 < 8)
      × (b.2 < 8)
unfolding mode_to_symbolic read_symbolic
read_symbolic-mode_to_symbolic mode h =
    let (b, p, q) = bind-inversion (parse_octal mode) _ h in
    let (lt₀, lt₁, lt₂) = parse_octal_lt mode p in
    (
      b,
      p,
      rw (← ok-injective q)
          (rw (read_bits-symbols b.0 lt₀, read_bits-symbols b.1 lt₁, read_bits-symbols b.2 lt₂)),
      lt₀,
      lt₁,
      lt₂,
    )

-- `parse_octal` accepts exactly the texts of three octal digits, and returns the digits' values.
pub parse_octal_iff :
    (mode : String) (a b c : ℕ)
    → (parse_octal mode ≡ ok (a, b, c))
      ↔ ((a < 8) × (b < 8) × (c < 8) × (codes mode ≡ (b'0' + a) ∷ (b'0' + b) ∷ (b'0' + c) ∷ []))
unfolding parse_octal
parse_octal_iff (String.◌∷◌ x (String.◌∷◌ y (String.◌∷◌ z String.[]))) a b c = ground arith
parse_octal_iff String.[] a b c = (λ h. cc, λ h. cc (h.3))
parse_octal_iff (String.◌∷◌ x String.[]) a b c = (λ h. cc, λ h. cc (h.3))
parse_octal_iff (String.◌∷◌ x (String.◌∷◌ y String.[])) a b c = (λ h. cc, λ h. cc (h.3))
parse_octal_iff (String.◌∷◌ x (String.◌∷◌ y (String.◌∷◌ z (String.◌∷◌ u s)))) a b c =
    (λ h. cc, λ h. cc (h.3))

leb_total : (a b : ℕ) → (leb a b ≡ true) ⊎ (leb b a ≡ true)
leb_total a b = ground arith

leb_zero : (a : ℕ) → leb 0 a ≡ true
leb_zero a = ground arith

leb_trans : (a b c : ℕ) → leb a b ≡ true → leb b c ≡ true → leb a c ≡ true
leb_trans a b c p q = ground arith

tier_bound : (role : String) {n : ℕ} → get role tier_levels ≡ some n → n ≤ 6
unfolding get
tier_bound role h = ground arith

absurd_level : (n : ℕ) → n ≤ 6 → leb 99 n ≡ true → ⊥
absurd_level n p h = ground arith

-- Above every level of the table there is only the default.
none_of_leb :
    (role : String) (o : Option ℕ)
    → get role tier_levels ≡ o
    → leb 99 (get_or o 99) ≡ true
    → get role tier_levels ≡ none
none_of_leb role none e h = e
none_of_leb role (some n) e h = absurd (absurd_level n (tier_bound role e) h)

unknown :
    (a b : String) → get a tier_levels ≡ none → check_min_tier a b ≡ true → get b tier_levels ≡ none
unknown a b h k = none_of_leb b (get b tier_levels) refl (unfold check_min_tier in (rw h at k))

-- The tiers are a total preorder under `check_min_tier`: it is transitive, of two roles one meets the
-- other, root meets every requirement, and a role that is not in the table meets only requirements
-- that are not in it.
pub check_min_tier_order :
    (a b c : String)
    → (check_min_tier a b ≡ true → check_min_tier b c ≡ true → check_min_tier a c ≡ true)
      × ((check_min_tier a b ≡ true) ⊎ (check_min_tier b a ≡ true))
      × (check_min_tier "root" a ≡ true)
      × (get a tier_levels ≡ none → check_min_tier a b ≡ true → get b tier_levels ≡ none)
unfolding check_min_tier
check_min_tier_order a b c =
    (leb_trans _ _ _, leb_total (tier_level a) (tier_level b), leb_zero _, unknown a b)
