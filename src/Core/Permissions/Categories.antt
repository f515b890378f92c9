-- ===== src/Core/Permissions/Categories.antt =====
-- Who is in which category of the mode of src/lumina/core/permissions.py, and which modules an admin governs,
-- stated apart from the checks.
use Prim.Native.Nat.{bit_and}
use mathlib.Core.Bool.{false≢true}
use mathlib.Core.List.{Memᴰ}
use lumina_framework.Base.{
  get_or, ℕ, String, Bool, true, false, ◌||◌, Option, none, some, List, [], ◌≡◌, ◌≢◌, refl, sym,
  ◌∙◌, ◌⊎◌, inl, inr, arith, Bool-cases, str_eq, eq_of_test, test_of_eq, ne_of_test, test_of_ne,
}
use lumina_framework.Base.Membership.{Memᴰ-of_elem, elem_of_Memᴰ}
use lumina_framework.Base.Dict.{Dict, get}
use lumina_framework.Core.Permissions.Model.{Bits, Members, Request}
use lumina_framework.Core.Permissions.Check.{
  holds_domain_role, member_of, is_group_member, outside_scope, category_bits, has_bits,
}

-- An admin who was given both a scope and a module acts inside the scope.
abbrev pub InScope : Request → Type 0
InScope r =
    r.user_role ≡ "admin"
    → (governed : List String) (module_id : String) → r.governed_modules ≡ some governed
    → r.module_id ≡ some module_id
    → Memᴰ module_id governed

-- The members of a group: an admin, by the name of a group that is not configured, or by a role of one that is.
pub data IsMember (role : String) (domain_role : Option String) (groups : Dict (Option Members))
    (group : String) : Type 0 where
  as_admin : role ≡ "admin" → IsMember role domain_role groups group
  by_name : get group groups ≡ none → role ≡ group → IsMember role domain_role groups group
  by_system_role :
      (m : Members)
      → get group groups ≡ some (some m)
      → Memᴰ role (get_or m.system_roles [])
      → IsMember role domain_role groups group
  by_domain_role :
      (m : Members)
      → get group groups ≡ some (some m)
      → (d : String) → domain_role ≡ some d
      → d ≢ ""
      → Memᴰ d (get_or m.domain_roles [])
      → IsMember role domain_role groups group

abbrev pub InGroup : Request → Type 0
InGroup r =
    IsMember r.user_role r.domain_role (get_or r.groups_config []) (get_or r.permissions.group "")

-- The digit of the mode that counts for a caller: the owner's, the group's or the others'.
pub data Digit (r : Request) (bits : Bits) : ℕ → Type 0 where
  of_owner : r.user_id ≡ get_or r.permissions.owner "" → Digit r bits (bits.0)
  of_group : r.user_id ≢ get_or r.permissions.owner "" → InGroup r → Digit r bits (bits.1)
  of_others : r.user_id ≢ get_or r.permissions.owner "" → ¬ InGroup r → Digit r bits (bits.2)

holds-parts :
    (o : Option String) (names : List String)
    → holds_domain_role o names ≡ true
    → (d : String) × (o ≡ some d) × (d ≢ "") × Memᴰ d names
unfolding holds_domain_role
holds-parts none names h = absurd (false≢true h)
holds-parts (some d) names h =
    (d, refl, ne_of_test d "" (ground arith), Memᴰ-of_elem d names (ground arith))

holds_of_parts :
    (o : Option String) (names : List String) (d : String)
    → o ≡ some d
    → d ≢ ""
    → Memᴰ d names
    → holds_domain_role o names ≡ true
unfolding holds_domain_role
holds_of_parts o names d e n m = rw (e, test_of_ne d "" n, elem_of_Memᴰ d names m) refl

or_inversion : (a b : Bool) → (a || b) ≡ true → (a ≡ true) ⊎ (b ≡ true)
or_inversion true b h = inl refl
or_inversion false b h = inr h

module _ (role : String) (domain_role : Option String) (groups : Option (Dict (Option Members)))
    (group : String) where
  abbrev Member : Type 0
  Member = IsMember role domain_role (get_or groups []) group

  listed_member :
      (m : Members)
      → get group (get_or groups []) ≡ some (some m)
      → (member_of role domain_role (some m) ≡ true)
      → Member
  unfolding member_of
  listed_member m e h = elim (or_inversion _ _ h) [
    | inl s ↦ by_system_role m e (Memᴰ-of_elem _ _ s)
    | inr t ↦ let (d, f, n, k) = holds-parts domain_role _ t in by_domain_role m e d f n k
  ]

  found_member :
      (o : Option (Option Members))
      → get group (get_or groups []) ≡ o
      → (elim o [ none ↦ str_eq role group | some members ↦ member_of role domain_role members ])
        ≡ true
      → Member
  unfolding member_of
  found_member none e h = by_name e (eq_of_test role group h)
  found_member (some none) e h = absurd (false≢true h)
  found_member (some (some m)) e h = listed_member m e h

  IsMember-of_test : is_group_member role domain_role groups group ≡ true → Member
  unfolding is_group_member
  IsMember-of_test h = elim (Bool-cases (str_eq role "admin")) [
    | inl a ↦ as_admin (eq_of_test role "admin" a)
    | inr n ↦ found_member (get group (get_or groups [])) refl (rw n at h)
  ]

  member_test_of :
      (m : Members)
      → get group (get_or groups []) ≡ some (some m)
      → member_of role domain_role (some m) ≡ true
      → is_group_member role domain_role groups group ≡ true
  unfolding is_group_member
  member_test_of m e h = elim (Bool-cases (str_eq role "admin")) [
    | inl a ↦ rw a refl
    | inr n ↦ rw (n, e) h
  ]

  test_of_IsMember : Member → is_group_member role domain_role groups group ≡ true
  unfolding is_group_member member_of
  test_of_IsMember (as_admin e) = rw (test_of_eq role "admin" e) refl
  test_of_IsMember (by_name none_there e) = elim (Bool-cases (str_eq role "admin")) [
    | inl a ↦ rw a refl
    | inr n ↦ rw (n, none_there) (test_of_eq role group e)
  ]
  test_of_IsMember (by_system_role m e k) =
      member_test_of m e (let s = elem_of_Memᴰ _ _ k in ground (arith, s))
  test_of_IsMember (by_domain_role m e d f n k) =
      member_test_of m e (let s = holds_of_parts domain_role _ d f n k in ground (arith, s))

-- The code's choice of the digit is the caller's.
category_bits-Digit : (r : Request) (bits : Bits) → Digit r bits (category_bits r bits)
unfolding category_bits
category_bits-Digit r bits = elim (Bool-cases (str_eq r.user_id (get_or r.permissions.owner ""))) [
  | inl o ↦ rw o (of_owner (eq_of_test _ _ o))
  | inr n ↦
      elim (Bool-cases (
        is_group_member r.user_role r.domain_role r.groups_config
          (get_or r.permissions.group ""))) [
            | inl g ↦
                rw (n, g) (of_group (ne_of_test _ _ n) (IsMember-of_test _ _ r.groups_config _ g))
            | inr k ↦
                rw (n, k)
                  (of_others (ne_of_test _ _ n)
                    (λ m. false≢true (sym k ∙ test_of_IsMember _ _ r.groups_config _ m)))
          ]
]

Digit-unique : (r : Request) (bits : Bits) {m n : ℕ} → Digit r bits m → Digit r bits n → m ≡ n
Digit-unique r bits (of_owner e) (of_owner f) = refl
Digit-unique r bits (of_owner e) (of_group n g) = absurd (n e)
Digit-unique r bits (of_owner e) (of_others n g) = absurd (n e)
Digit-unique r bits (of_group n g) (of_owner f) = absurd (n f)
Digit-unique r bits (of_group n g) (of_group n' g') = refl
Digit-unique r bits (of_group n g) (of_others n' k) = absurd (k g)
Digit-unique r bits (of_others n k) (of_owner f) = absurd (n f)
Digit-unique r bits (of_others n k) (of_group n' g) = absurd (k g)
Digit-unique r bits (of_others n k) (of_others n' k') = refl

-- The digit of the caller has the bit of the operation.
abbrev pub ModeAllows : Request → Bits → Type 0
ModeAllows r bits = (n : ℕ) × Digit r bits n × (bit_and n r.operation ≢ 0)

pub ModeAllows-of_has_bits :
    (r : Request) (bits : Bits)
    → has_bits (category_bits r bits) r.operation ≡ true
    → ModeAllows r bits
unfolding has_bits
ModeAllows-of_has_bits r bits h =
    (category_bits r bits, category_bits-Digit r bits, ground (arith, h))

pub has_bits_of_ModeAllows :
    (r : Request) (bits : Bits)
    → ModeAllows r bits
    → has_bits (category_bits r bits) r.operation ≡ true
unfolding has_bits
has_bits_of_ModeAllows r bits (n, d, allowed) =
    let same = Digit-unique r bits d (category_bits-Digit r bits) in
    let one : (bit_and (category_bits r bits) r.operation ≢ 0) = rw (sym same) allowed in
    ground (arith, one)

-- Where the scope and the module are given, the check is that of the scope.
pub InScope-of_outside :
    (r : Request)
    → (r.user_role ≡ "admin" → outside_scope r.governed_modules r.module_id ≡ false)
    → InScope r
unfolding outside_scope
InScope-of_outside r h is_admin governed id e f =
    let inside = h is_admin in
    let given : (outside_scope (some governed) (some id) ≡ false) = rw (e, f) at inside in
    Memᴰ-of_elem id governed (ground (arith, given))

outside_of_InScope :
    (g : Option (List String)) (m : Option String)
    → ((governed : List String) (id : String) → g ≡ some governed → m ≡ some id → Memᴰ id governed)
    → outside_scope g m ≡ false
unfolding outside_scope
outside_of_InScope (some g) (some m) h = rw (elem_of_Memᴰ m g (h g m refl refl)) refl
outside_of_InScope none m h = refl
outside_of_InScope (some g) none h = refl

pub outside-InScope :
    (r : Request)
    → InScope r
    → r.user_role ≡ "admin"
    → outside_scope r.governed_modules r.module_id ≡ false
outside-InScope r h is_admin = outside_of_InScope r.governed_modules r.module_id (h is_admin)
