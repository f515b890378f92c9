-- ===== src/Core/Permissions/Grants.antt =====
-- What `check_permission` of src/lumina/core/permissions.py promises: the ways to be granted an
-- operation, as rules. The checker decides them.
use lumina_framework.Base.{
  get_or, ℕ, String, Bool, true, false, ◌&&◌, ◌||◌, some, [], ok, ◌≡◌, ◌≢◌, refl, sym, ap, ◌⊎◌, inl,
  inr, ◌↔◌, ◌∙◌, ◌>>=◌, ◌==◌, arith, bind-inversion, ok-injective, Bool-cases, Option-cases,
  is_infix, str_eq, eq_iff, eq_of_test, test_of_eq, ne_of_test, test_of_ne,
}
use lumina_framework.Core.Permissions.Model.{
  ingest, Bits, parse_octal, GuestAccess, DomainRolesConfig, Request, op_char, guest_op_char,
}
use lumina_framework.Core.Permissions.Check.{
  acl_grants, outside_scope, guest_allows, category_bits, has_bits, domain_overlay, check_bits,
  check_permission,
}
use lumina_framework.Core.Permissions.Categories.{
  InScope, ModeAllows, ModeAllows-of_has_bits, has_bits_of_ModeAllows, InScope-of_outside,
  outside-InScope,
}
use lumina_framework.Core.Permissions.Entries.{
  HasEntry, HasEntry-of_acl_grants, acl_grants_of_HasEntry,
}
use lumina_framework.Core.Permissions.Roles.{
  RoleGrants, or-cases, or-first, or-second, or-third, overlay_inversion, overlay_of_parts,
}

test_of_ne_ℕ : (a b : ℕ) → a ≢ b → (a == b) ≡ false
test_of_ne_ℕ a b h = ground arith

ne_of_test_ℕ : (a b : ℕ) → (a == b) ≡ false → a ≢ b
ne_of_test_ℕ a b h e = ground arith

eq_of_test_ℕ : (a b : ℕ) → (a == b) ≡ true → a ≡ b
eq_of_test_ℕ a b h = ground arith

-- The requests that the mode bits decide.
pub record IsOrdinary (r : Request) : Type 0 where
  pub not_root : r.user_role ≢ "root"
  pub in_scope : InScope r
  pub not_ingest : r.operation ≢ ingest
  pub not_guest : r.user_role ≢ "guest"

pub data Grants (r : Request) : Type 0 where
  as_root : r.user_role ≡ "root" → Grants r
  by_ingest :
      r.user_role ≢ "root"
      → InScope r
      → r.operation ≡ ingest
      → HasEntry r.user_role "i" (get_or r.permissions.acl [])
      → Grants r
  as_guest :
      r.user_role ≡ "guest"
      → r.operation ≢ ingest
      → (g : GuestAccess) → r.permissions.guest_access ≡ some g
      → g.enabled ≡ true
      → is_infix (guest_op_char r.operation) (get_or g.permissions "") ≡ true
      → Grants r
  by_mode :
      IsOrdinary r
      → (bits : Bits) → parse_octal (get_or r.permissions.mode "000") ≡ ok bits
      → ModeAllows r bits
      → Grants r
  by_acl :
      IsOrdinary r
      → (bits : Bits) → parse_octal (get_or r.permissions.mode "000") ≡ ok bits
      → HasEntry r.user_role (op_char r.operation) (get_or r.permissions.acl [])
      → Grants r
  by_domain_role :
      IsOrdinary r
      → (bits : Bits) → parse_octal (get_or r.permissions.mode "000") ≡ ok bits
      → (d : String) (config : DomainRolesConfig) → r.domain_role ≡ some d
      → r.domain_roles_config ≡ some config
      → d ≢ ""
      → op_char r.operation ≢ ""
      → RoleGrants d (op_char r.operation) config r.permissions
      → Grants r

abbrev admin_blocked : Request → Bool
admin_blocked r = str_eq r.user_role "admin" && outside_scope r.governed_modules r.module_id

InScope-of_test : (r : Request) → admin_blocked r ≡ false → InScope r
InScope-of_test r h = InScope-of_outside r (λ e. ground (arith, eq_iff r.user_role "admin"))

test_of_InScope : (r : Request) → InScope r → admin_blocked r ≡ false
test_of_InScope r h = elim (Bool-cases (str_eq r.user_role "admin")) [
  | inl e ↦ rw e (outside-InScope r h (eq_of_test _ _ e))
  | inr n ↦ rw n
]

module _ (r : Request) where
  abbrev op : String
  op = op_char r.operation

  -- An ordinary request is decided by the bits, or raises on a malformed mode.
  pub check_permission-IsOrdinary :
      IsOrdinary r
      → check_permission r
        ≡ (parse_octal (get_or r.permissions.mode "000") >>= λ bits. ok (check_bits r bits))
  check_permission-IsOrdinary h =
      unfold check_permission in
      rw (
        test_of_ne _ _ h.not_root,
        test_of_InScope r h.in_scope,
        test_of_ne_ℕ _ _ h.not_ingest,
        test_of_ne _ _ h.not_guest,
      )

  check_true_of_bits :
      IsOrdinary r
      → (bits : Bits) → parse_octal (get_or r.permissions.mode "000") ≡ ok bits
      → check_bits r bits ≡ true
      → check_permission r ≡ ok true
  check_true_of_bits h bits p q = check_permission-IsOrdinary h ∙ rw p (ap ok q)

  check_bits_lem :
      (bits : Bits)
      → check_bits r bits ≡ (
          has_bits (category_bits r bits) r.operation
          || acl_grants r.user_role op (get_or r.permissions.acl [])
          || domain_overlay op r.permissions r.domain_role r.domain_roles_config)
  unfolding check_bits
  check_bits_lem bits = refl

  Grants-of_bits :
      IsOrdinary r
      → (bits : Bits) → parse_octal (get_or r.permissions.mode "000") ≡ ok bits
      → check_bits r bits ≡ true
      → Grants r
  Grants-of_bits o bits p h =
      elim (or-cases (has_bits (category_bits r bits) r.operation)
        (acl_grants r.user_role op (get_or r.permissions.acl []))
        (domain_overlay op r.permissions r.domain_role r.domain_roles_config)
        (sym (check_bits_lem bits) ∙ h)) [
          | inl f ↦ by_mode o bits p (ModeAllows-of_has_bits r bits f)
          | inr (inl f) ↦ by_acl o bits p (HasEntry-of_acl_grants _ _ _ f)
          | inr (inr f) ↦
              let (d, config, e₁, e₂, n₁, n₂, g) =
                overlay_inversion op r.permissions r.domain_role r.domain_roles_config f in
              by_domain_role o bits p d config e₁ e₂ n₁ n₂ g
        ]

  Grants-of_IsOrdinary : IsOrdinary r → check_permission r ≡ ok true → Grants r
  Grants-of_IsOrdinary o h =
      let (bits, p, q) =
        bind-inversion (parse_octal (get_or r.permissions.mode "000")) _
          (sym (check_permission-IsOrdinary o) ∙ h) in
      Grants-of_bits o bits p (ok-injective q)

  Grants-of_guest :
      r.user_role ≡ "guest"
      → r.operation ≢ ingest
      → guest_allows r.permissions.guest_access r.operation ≡ true
      → Grants r
  Grants-of_guest e n h = elim (Option-cases r.permissions.guest_access) [
    | inl q ↦ absurd (unfold guest_allows in ground arith)
    | inr (g, q) ↦
        as_guest e n g q (unfold guest_allows in ground arith) (unfold guest_allows in ground arith)
  ]

  Grants-of_check : check_permission r ≡ ok true → Grants r
  Grants-of_check h = elim (Bool-cases (str_eq r.user_role "root")) [
    | inl root ↦ as_root (eq_of_test _ _ root)
    | inr not_root ↦ elim (Bool-cases (admin_blocked r)) [
      | inl blocked ↦ absurd (unfold check_permission in ground arith)
      | inr in_scope ↦ elim (Bool-cases (r.operation == ingest)) [
        | inl is_ingest ↦
            by_ingest (ne_of_test _ _ not_root) (InScope-of_test r in_scope)
              (eq_of_test_ℕ _ _ is_ingest)
              (HasEntry-of_acl_grants _ _ _ (unfold check_permission in ground arith))
        | inr not_ingest ↦ elim (Bool-cases (str_eq r.user_role "guest")) [
          | inl guest ↦
              Grants-of_guest (eq_of_test _ _ guest) (ne_of_test_ℕ _ _ not_ingest)
                (unfold check_permission in ground arith)
          | inr not_guest ↦
              Grants-of_IsOrdinary
                (record {
                  not_root = ne_of_test _ _ not_root;
                  in_scope = InScope-of_test r in_scope;
                  not_ingest = ne_of_test_ℕ _ _ not_ingest;
                  not_guest = ne_of_test _ _ not_guest;
                })
                h
        ]
      ]
    ]
  ]

  check_permission-ingest :
      r.user_role ≢ "root"
      → InScope r
      → r.operation ≡ ingest
      → check_permission r ≡ ok (acl_grants r.user_role "i" (get_or r.permissions.acl []))
  check_permission-ingest n s e =
      unfold check_permission in rw (test_of_ne _ _ n, test_of_InScope r s, e)

  check_permission-guest :
      r.user_role ≡ "guest"
      → r.operation ≢ ingest
      → check_permission r ≡ ok (guest_allows r.permissions.guest_access r.operation)
  check_permission-guest e n = unfold check_permission in rw (e, test_of_ne_ℕ _ _ n)

  check_of_Grants : Grants r → check_permission r ≡ ok true
  check_of_Grants (as_root e) = unfold check_permission in rw (test_of_eq _ _ e)
  check_of_Grants (by_ingest n s e allowed) =
      check_permission-ingest n s e ∙ ap ok (acl_grants_of_HasEntry _ _ allowed)
  check_of_Grants (as_guest e n g q enabled letter) =
      check_permission-guest e n
      ∙ ap ok (unfold guest_allows in rw (q, guest_allows) (ground arith))
  check_of_Grants (by_mode o bits p f) =
      check_true_of_bits o bits p
        (check_bits_lem bits ∙ or-first _ _ _ (has_bits_of_ModeAllows r bits f))
  check_of_Grants (by_acl o bits p f) = check_true_of_bits o bits p (
      check_bits_lem bits
      ∙ or-second (has_bits (category_bits r bits) r.operation) _
          (domain_overlay op r.permissions r.domain_role r.domain_roles_config)
          (acl_grants_of_HasEntry _ _ f))
  check_of_Grants (by_domain_role o bits p d config e₁ e₂ n₁ n₂ g) = check_true_of_bits o bits p (
      check_bits_lem bits
      ∙ or-third (has_bits (category_bits r bits) r.operation)
          (acl_grants r.user_role op (get_or r.permissions.acl [])) _
          (overlay_of_parts op r.permissions r.domain_role r.domain_roles_config d config e₁ e₂ n₁
            n₂ g))

  -- The checker grants an operation exactly when one of six rules does: root, an INGEST entry, guest access, the
  -- mode bits of the caller's category, an entry for the role, the domain role.
  pub check_permission-Grants : (check_permission r ≡ ok true) ↔ Grants r
  check_permission-Grants = (Grants-of_check, check_of_Grants)

  -- A request is ordinary, or is answered without a look at the mode.
  pub IsOrdinary-cases : IsOrdinary r ⊎ ((b : Bool) × (check_permission r ≡ ok b))
  IsOrdinary-cases = elim (Bool-cases (str_eq r.user_role "root")) [
    | inl root ↦ inr (true, unfold check_permission in rw root)
    | inr not_root ↦ elim (Bool-cases (admin_blocked r)) [
      | inl blocked ↦ inr (false, unfold check_permission in rw (not_root, blocked))
      | inr in_scope ↦ elim (Bool-cases (r.operation == ingest)) [
        | inl is_ingest ↦ inr (
          _,
          check_permission-ingest (ne_of_test _ _ not_root) (InScope-of_test r in_scope)
              (eq_of_test_ℕ _ _ is_ingest),
        )
        | inr not_ingest ↦ elim (Bool-cases (str_eq r.user_role "guest")) [
          | inl guest ↦
              inr (_, check_permission-guest (eq_of_test _ _ guest) (ne_of_test_ℕ _ _ not_ingest))
          | inr not_guest ↦ inl (record {
            not_root = ne_of_test _ _ not_root;
            in_scope = InScope-of_test r in_scope;
            not_ingest = ne_of_test_ℕ _ _ not_ingest;
            not_guest = ne_of_test _ _ not_guest;
          })
        ]
      ]
    ]
  ]
