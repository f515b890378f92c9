-- ===== src/Core/Permissions/Roles.antt =====
-- The overlay of the domain role of src/lumina/core/permissions.py, as rules.
use mathlib.Core.Bool.{false≢true}
use lumina_framework.Base.{
  get_or, String, Bool, true, false, ◌||◌, Option, none, some, [], ◌≡◌, ◌≢◌, refl, sym, ◌⊎◌, inl,
  inr, ◌∙◌, arith, Option-cases, is_infix, ne_of_test, test_of_ne,
}
use lumina_framework.Core.Permissions.Model.{ModulePermissions, DomainRolesConfig}
use lumina_framework.Core.Permissions.Check.{
  domain_acl_grants, find_role, check_domain_role, domain_overlay,
}
use lumina_framework.Core.Permissions.Entries.{
  IsDefined, IsDefined-of_find_role, find_role_of_IsDefined, HasKeyedEntry,
  HasKeyedEntry-of_domain_acl_grants, domain_acl_grants_of_HasKeyedEntry,
}

-- What the definition of a domain role, or an entry for it in one of two lists, gives.
pub data RoleGrants (domain_role op : String) (config : DomainRolesConfig)
    (permissions : ModulePermissions) : Type 0 where
  by_default :
      (access : Option String)
      → IsDefined domain_role (get_or config.roles []) access
      → is_infix op (get_or access "") ≡ true
      → RoleGrants domain_role op config permissions
  by_role_acl :
      (access : Option String)
      → IsDefined domain_role (get_or config.roles []) access
      → HasKeyedEntry domain_role op (get_or config.role_acl [])
      → RoleGrants domain_role op config permissions
  by_module_acl :
      (access : Option String)
      → IsDefined domain_role (get_or config.roles []) access
      → HasKeyedEntry domain_role op (get_or permissions.acl [])
      → RoleGrants domain_role op config permissions

-- Which of the three alternatives of a granting expression holds.
pub or-cases : (a b c : Bool) → (a || b || c) ≡ true → (a ≡ true) ⊎ ((b ≡ true) ⊎ (c ≡ true))
or-cases true b c h = inl refl
or-cases false true c h = inr (inl refl)
or-cases false false c h = inr (inr h)

pub or-first : (a b c : Bool) → a ≡ true → (a || b || c) ≡ true
or-first a b c h = ground arith

pub or-second : (a b c : Bool) → b ≡ true → (a || b || c) ≡ true
or-second a b c h = ground arith

pub or-third : (a b c : Bool) → c ≡ true → (a || b || c) ≡ true
or-third a b c h = ground arith

module _ (d op : String) (config : DomainRolesConfig) (permissions : ModulePermissions) where
  check_found :
      (access : Option String)
      → find_role d (get_or config.roles []) ≡ some access
      → check_domain_role d op config permissions ≡ (
          is_infix op (get_or access "")
          || domain_acl_grants d op (get_or config.role_acl [])
          || domain_acl_grants d op (get_or permissions.acl []))
  unfolding check_domain_role
  check_found access e = rw (e, check_domain_role)

  RoleGrants-of_check :
      check_domain_role d op config permissions ≡ true → RoleGrants d op config permissions
  RoleGrants-of_check h = elim (Option-cases (find_role d (get_or config.roles []))) [
    | inl e ↦ absurd (unfold check_domain_role in ground arith)
    | inr (access, e) ↦ elim (or-cases _ _ _ (sym (check_found access e) ∙ h)) [
      | inl f ↦ by_default access (IsDefined-of_find_role d _ e) f
      | inr (inl f) ↦
          by_role_acl access (IsDefined-of_find_role d _ e)
            (HasKeyedEntry-of_domain_acl_grants d op _ f)
      | inr (inr f) ↦
          by_module_acl access (IsDefined-of_find_role d _ e)
            (HasKeyedEntry-of_domain_acl_grants d op _ f)
    ]
  ]

  check_of_RoleGrants :
      RoleGrants d op config permissions → check_domain_role d op config permissions ≡ true
  check_of_RoleGrants (by_default a e f) =
      check_found a (find_role_of_IsDefined d e) ∙ or-first _ _ _ f
  check_of_RoleGrants (by_role_acl a e f) =
      check_found a (find_role_of_IsDefined d e)
      ∙ or-second (is_infix op (get_or a "")) _ (domain_acl_grants d op (get_or permissions.acl []))
          (domain_acl_grants_of_HasKeyedEntry d op f)
  check_of_RoleGrants (by_module_acl a e f) =
      check_found a (find_role_of_IsDefined d e)
      ∙ or-third (is_infix op (get_or a "")) (domain_acl_grants d op (get_or config.role_acl [])) _
          (domain_acl_grants_of_HasKeyedEntry d op f)

pub overlay_inversion :
    (op : String) (p : ModulePermissions) (o : Option String) (c : Option DomainRolesConfig)
    → domain_overlay op p o c ≡ true
    → (d : String) × (config : DomainRolesConfig) × (o ≡ some d)
      × (c ≡ some config)
      × (d ≢ "")
      × (op ≢ "")
      × RoleGrants d op config p
unfolding domain_overlay
overlay_inversion op p (some d) (some config) h = (
  d,
  config,
  refl,
  refl,
  ne_of_test d "" (ground arith),
  ne_of_test op "" (ground arith),
  RoleGrants-of_check d op config p (ground arith),
)
overlay_inversion op p none c h = absurd (false≢true h)
overlay_inversion op p (some d) none h = absurd (false≢true h)

pub overlay_of_parts :
    (op : String) (p : ModulePermissions) (o : Option String) (c : Option DomainRolesConfig)
    (d : String) (config : DomainRolesConfig)
    → o ≡ some d
    → c ≡ some config
    → d ≢ ""
    → op ≢ ""
    → RoleGrants d op config p
    → domain_overlay op p o c ≡ true
overlay_of_parts op p o c d config e₁ e₂ n₁ n₂ g =
    rw (e₁, e₂)
      (unfold domain_overlay in
        rw (test_of_ne _ _ n₁, test_of_ne _ _ n₂) (check_of_RoleGrants d op config p g))
