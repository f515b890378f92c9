-- ===== src/Core/Permissions/Entries.antt =====
-- The loops over access lists of src/lumina/core/permissions.py, against the entries that they look
-- for.
use mathlib.Core.Bool.{false≢true}
use lumina_framework.Base.{
  get_or, eq_refl, String, true, ◌&&◌, Option, none, some, List, [], ◌∷◌, ◌≡◌, ◌≢◌, refl, ap,
  ne_of_test, test_of_ne, inl, inr, arith, Bool-cases, is_infix, str_eq, eq_of_test,
}
use lumina_framework.Base.Select.{some_injective}
use lumina_framework.Core.Permissions.Model.{AclEntry, entry, RoleDef, role_def}
use lumina_framework.Core.Permissions.Check.{acl_grants, domain_acl_grants, find_role}

-- The list has an entry for the system role whose access holds the letter.
pub data HasEntry (user_role op : String) : List AclEntry → Type 0 where
  here :
      (keyed access : Option String) (acl : List AclEntry)
      → is_infix op (get_or access "") ≡ true
      → HasEntry user_role op (entry (some user_role) keyed access ∷ acl)
  later :
      (e : AclEntry) {acl : List AclEntry}
      → HasEntry user_role op acl
      → HasEntry user_role op (e ∷ acl)

-- The same for the domain role of the entries.
pub data HasKeyedEntry (domain_role op : String) : List AclEntry → Type 0 where
  here :
      (role access : Option String) (acl : List AclEntry)
      → is_infix op (get_or access "") ≡ true
      → HasKeyedEntry domain_role op (entry role (some domain_role) access ∷ acl)
  later :
      (e : AclEntry) {acl : List AclEntry}
      → HasKeyedEntry domain_role op acl
      → HasKeyedEntry domain_role op (e ∷ acl)

module _ (r op : String) where
  HasEntry-of_eq :
      (t : String) (keyed access : Option String) (acl : List AclEntry)
      → t ≡ r
      → is_infix op (get_or access "") ≡ true
      → HasEntry r op (entry (some t) keyed access ∷ acl)
  HasEntry-of_eq t k a acl e f = rw e (HasEntry.here k a acl f)

  HasKeyedEntry-of_eq :
      (t : String) (role access : Option String) (acl : List AclEntry)
      → t ≡ r
      → is_infix op (get_or access "") ≡ true
      → HasKeyedEntry r op (entry role (some t) access ∷ acl)
  HasKeyedEntry-of_eq t k a acl e f = rw e (HasKeyedEntry.here k a acl f)

  pub HasEntry-of_acl_grants :
      (acl : List AclEntry) → acl_grants r op acl ≡ true → HasEntry r op acl
  unfolding acl_grants
  HasEntry-of_acl_grants [] h = absurd (false≢true h)
  HasEntry-of_acl_grants (AclEntry.not_mapping ∷ acl) h =
      HasEntry.later AclEntry.not_mapping (HasEntry-of_acl_grants acl h)
  HasEntry-of_acl_grants (entry none keyed access ∷ acl) h =
      HasEntry.later (entry none keyed access) (HasEntry-of_acl_grants acl h)
  HasEntry-of_acl_grants (entry (some t) keyed access ∷ acl) h =
      elim (Bool-cases (str_eq t r && is_infix op (get_or access ""))) [
        | inl e ↦ HasEntry-of_eq t keyed access acl (eq_of_test t r (ground arith)) (ground arith)
        | inr n ↦
            HasEntry.later (entry (some t) keyed access) (HasEntry-of_acl_grants acl (ground arith))
      ]

  pub acl_grants_of_HasEntry :
      {acl : List AclEntry} → HasEntry r op acl → acl_grants r op acl ≡ true
  unfolding acl_grants
  acl_grants_of_HasEntry (HasEntry.here k a acl f) = ground (arith, eq_refl r)
  acl_grants_of_HasEntry (HasEntry.later AclEntry.not_mapping h) = acl_grants_of_HasEntry h
  acl_grants_of_HasEntry (HasEntry.later (entry none k a) h) = acl_grants_of_HasEntry h
  acl_grants_of_HasEntry (HasEntry.later (entry (some t) k a) h) =
      ground (arith, acl_grants_of_HasEntry h)

  pub HasKeyedEntry-of_domain_acl_grants :
      (acl : List AclEntry) → domain_acl_grants r op acl ≡ true → HasKeyedEntry r op acl
  unfolding domain_acl_grants
  HasKeyedEntry-of_domain_acl_grants [] h = absurd (false≢true h)
  HasKeyedEntry-of_domain_acl_grants (AclEntry.not_mapping ∷ acl) h =
      HasKeyedEntry.later AclEntry.not_mapping (HasKeyedEntry-of_domain_acl_grants acl h)
  HasKeyedEntry-of_domain_acl_grants (entry role none access ∷ acl) h =
      HasKeyedEntry.later (entry role none access) (HasKeyedEntry-of_domain_acl_grants acl h)
  HasKeyedEntry-of_domain_acl_grants (entry role (some t) access ∷ acl) h =
      elim (Bool-cases (str_eq t r && is_infix op (get_or access ""))) [
        | inl e ↦
            HasKeyedEntry-of_eq t role access acl (eq_of_test t r (ground arith)) (ground arith)
        | inr n ↦
            HasKeyedEntry.later (entry role (some t) access)
              (HasKeyedEntry-of_domain_acl_grants acl (ground arith))
      ]

  pub domain_acl_grants_of_HasKeyedEntry :
      {acl : List AclEntry} → HasKeyedEntry r op acl → domain_acl_grants r op acl ≡ true
  unfolding domain_acl_grants
  domain_acl_grants_of_HasKeyedEntry (HasKeyedEntry.here k a acl f) = ground (arith, eq_refl r)
  domain_acl_grants_of_HasKeyedEntry (HasKeyedEntry.later AclEntry.not_mapping h) =
      domain_acl_grants_of_HasKeyedEntry h
  domain_acl_grants_of_HasKeyedEntry (HasKeyedEntry.later (entry k none a) h) =
      domain_acl_grants_of_HasKeyedEntry h
  domain_acl_grants_of_HasKeyedEntry (HasKeyedEntry.later (entry k (some t) a) h) =
      ground (arith, domain_acl_grants_of_HasKeyedEntry h)

-- The first definition of the domain role in the list has this default access.
pub data IsDefined (domain_role : String) : List RoleDef → Option String → Type 0 where
  first :
      (access : Option String) (roles : List RoleDef)
      → IsDefined domain_role (role_def (some domain_role) access ∷ roles) access
  past_other :
      (role_id other : Option String) {roles : List RoleDef} {access : Option String}
      → role_id ≢ some domain_role
      → IsDefined domain_role roles access
      → IsDefined domain_role (role_def role_id other ∷ roles) access
  past_no_mapping :
      {roles : List RoleDef} {access : Option String}
      → IsDefined domain_role roles access
      → IsDefined domain_role (RoleDef.not_mapping ∷ roles) access

none_ne_role : {d : String} → ◌≢◌ {A = Option String} none (some d)
none_ne_role e = cc

pub IsDefined-of_find_role :
    (d : String) (roles : List RoleDef) {access : Option String}
    → find_role d roles ≡ some access
    → IsDefined d roles access
unfolding find_role
IsDefined-of_find_role d [] h = cc
IsDefined-of_find_role d (RoleDef.not_mapping ∷ roles) h =
    past_no_mapping (IsDefined-of_find_role d roles h)
IsDefined-of_find_role d (role_def none other ∷ roles) h =
    past_other none other none_ne_role (IsDefined-of_find_role d roles h)
IsDefined-of_find_role d (role_def (some t) other ∷ roles) h = elim (Bool-cases (str_eq t d)) [
  | inl e ↦ rw (eq_of_test t d e, ← (some_injective (rw e at h))) (first other roles)
  | inr n ↦
      past_other (some t) other (λ same. ne_of_test t d n (some_injective same))
        (IsDefined-of_find_role d roles (rw n at h))
]

pub find_role_of_IsDefined :
    (d : String) {roles : List RoleDef} {access : Option String}
    → IsDefined d roles access
    → find_role d roles ≡ some access
unfolding find_role
find_role_of_IsDefined d (first access roles) = rw (eq_refl d) refl
find_role_of_IsDefined d (past_other none other n h) = find_role_of_IsDefined d h
find_role_of_IsDefined d (past_other (some t) other n h) =
    rw (test_of_ne t d (λ e. n (ap some e))) (find_role_of_IsDefined d h)
find_role_of_IsDefined d (past_no_mapping h) = find_role_of_IsDefined d h
