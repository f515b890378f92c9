-- ===== src/Core/Permissions/Laws.antt =====
-- Consequences for callers of src/lumina/core/permissions.py: what cannot change a decision, what
-- only adds to it, and when the checker raises.
use lumina_framework.Base.{
  get_or, String, Bool, true, false, some, List, [], ◌++◌, Result, ok, err, ◌≡◌, refl, sym, ◌↔◌,
  ◌∙◌, ◌>>=◌, if◌then◌else◌, is_infix-empty, ok-ne-err, inl, inr,
}
use lumina_framework.Core.Permissions.Model.{
  ingest, Error, permission_error, Bits, parse_octal, AclEntry, ModulePermissions,
  DomainRolesConfig, Request, op_char,
}
use lumina_framework.Core.Permissions.Check.{
  category_bits, check_bits, check_permission, check_permission_or_raise,
}
use lumina_framework.Core.Permissions.Categories.{ModeAllows-of_has_bits, has_bits_of_ModeAllows}
use lumina_framework.Core.Permissions.Entries.{HasEntry, HasKeyedEntry}
use lumina_framework.Core.Permissions.Grants.{
  Grants, IsOrdinary, as_root, by_ingest, as_guest, by_mode, by_acl, by_domain_role,
  check_permission-Grants, check_permission-IsOrdinary, IsOrdinary-cases,
}
use lumina_framework.Core.Permissions.Roles.{RoleGrants, by_default, by_role_acl, by_module_acl}

-- For INGEST only the access list of the permissions block counts: two blocks with the same list
-- give the same answer, whatever their modes, owners, groups and guest blocks.
pub check_permission-ingest_acl_only :
    (r : Request) (p : ModulePermissions)
    → r.operation ≡ ingest
    → p.acl ≡ r.permissions.acl
    → check_permission (record r { permissions = p }) ≡ check_permission r
unfolding check_permission
check_permission-ingest_acl_only r p e same = rw (e, same)

HasEntry-append :
    (u op : String) {acl : List AclEntry} (extra : List AclEntry)
    → HasEntry u op acl
    → HasEntry u op (acl ++ extra)
HasEntry-append u op extra (HasEntry.here k a acl f) = HasEntry.here k a (acl ++ extra) f
HasEntry-append u op extra (HasEntry.later e h) = HasEntry.later e (HasEntry-append u op extra h)

HasKeyedEntry-append :
    (u op : String) {acl : List AclEntry} (extra : List AclEntry)
    → HasKeyedEntry u op acl
    → HasKeyedEntry u op (acl ++ extra)
HasKeyedEntry-append u op extra (HasKeyedEntry.here k a acl f) =
    HasKeyedEntry.here k a (acl ++ extra) f
HasKeyedEntry-append u op extra (HasKeyedEntry.later e h) =
    HasKeyedEntry.later e (HasKeyedEntry-append u op extra h)

abbrev with_more : ModulePermissions → List AclEntry → ModulePermissions
with_more p extra = record p { acl = some (get_or p.acl [] ++ extra) }

RoleGrants-with_more :
    (d op : String) (config : DomainRolesConfig) (p : ModulePermissions) (extra : List AclEntry)
    → RoleGrants d op config p
    → RoleGrants d op config (with_more p extra)
RoleGrants-with_more d op config p extra (by_default a e f) = by_default a e f
RoleGrants-with_more d op config p extra (by_role_acl a e f) = by_role_acl a e f
RoleGrants-with_more d op config p extra (by_module_acl a e f) =
    by_module_acl a e (HasKeyedEntry-append d op extra f)

module _ (r : Request) (extra : List AclEntry) where
  abbrev pub extended : Request
  extended = record r { permissions = with_more r.permissions extra }

  IsOrdinary-extended : IsOrdinary r → IsOrdinary extended
  IsOrdinary-extended o = record {
    not_root = o.not_root;
    in_scope = o.in_scope;
    not_ingest = o.not_ingest;
    not_guest = o.not_guest;
  }

  Grants-extended : Grants r → Grants extended
  unfolding category_bits
  Grants-extended (as_root e) = as_root e
  Grants-extended (by_ingest n s e h) = by_ingest n s e (HasEntry-append _ _ extra h)
  Grants-extended (as_guest e n g q enabled f) = as_guest e n g q enabled f
  Grants-extended (by_mode o b p f) =
      by_mode (IsOrdinary-extended o) b p
        (ModeAllows-of_has_bits extended b (has_bits_of_ModeAllows r b f))
  Grants-extended (by_acl o b p h) =
      by_acl (IsOrdinary-extended o) b p (HasEntry-append _ _ extra h)
  Grants-extended (by_domain_role o b p d c e₁ e₂ n₁ n₂ g) =
      by_domain_role (IsOrdinary-extended o) b p d c e₁ e₂ n₁ n₂
        (RoleGrants-with_more d _ c r.permissions extra g)

  -- Entries added at the end of a module's access list take no permission away.
  pub check_permission-extended : check_permission r ≡ ok true → check_permission extended ≡ ok true
  check_permission-extended h =
      (check_permission-Grants extended).1 (Grants-extended ((check_permission-Grants r).0 h))

parse_err :
    {e : Error} (f : Bits → Bool) (m : Result Error Bits)
    → (m >>= λ bits. ok (f bits)) ≡ err e
    → m ≡ err e
parse_err f (ok b) h = absurd (ok-ne-err h)
parse_err f (err x) h = cc

raise_inversion :
    (e : Error) (m : Result Error Bool)
    → ◌≡◌ {A = Result Error (Unit {0})} (m >>= λ granted. if granted then ok tt else err e) (ok tt)
    → m ≡ ok true
raise_inversion e (ok true) h = refl
raise_inversion e (ok false) h = cc
raise_inversion e (err x) h = cc

HasEntry-any : {u letter : String} {acl : List AclEntry} → HasEntry u letter acl → HasEntry u "" acl
HasEntry-any (HasEntry.here k a acl f) = HasEntry.here k a acl (is_infix-empty (get_or a ""))
HasEntry-any (HasEntry.later e h) = HasEntry.later e (HasEntry-any h)

module _ (r : Request) where
  raise_ok : check_permission_or_raise r ≡ ok tt → check_permission r ≡ ok true
  raise_ok h =
      raise_inversion (permission_error r.user_role r.user_id r.operation) (check_permission r)
        (unfold check_permission_or_raise in h)

  raise_of_ok : check_permission r ≡ ok true → check_permission_or_raise r ≡ ok tt
  unfolding check_permission_or_raise
  raise_of_ok h = rw h

  raise_of_refused :
      check_permission r ≡ ok false
      → check_permission_or_raise r ≡ err (permission_error r.user_role r.user_id r.operation)
  unfolding check_permission_or_raise
  raise_of_refused h = rw h

  -- The checker raises exactly on a request that is for the mode bits to decide and whose mode is
  -- no octal mode, and then the exception is that of `parse_octal`.
  pub check_permission-err_iff :
      (e : Error)
      → (check_permission r ≡ err e)
        ↔ (IsOrdinary r × (parse_octal (get_or r.permissions.mode "000") ≡ err e))
  check_permission-err_iff e = (
    λ h. elim (IsOrdinary-cases r) [
      | inl o ↦ (
        o,
        parse_err (check_bits r) (parse_octal (get_or r.permissions.mode "000"))
            (sym (check_permission-IsOrdinary r o) ∙ h),
      )
      | inr (b, k) ↦ absurd (ok-ne-err (sym k ∙ h))
    ],
    λ h. check_permission-IsOrdinary r h.0 ∙ rw h.1,
  )

  -- The raising form returns exactly for what is granted, and turns a refusal into the error that
  -- names the caller and the operation.
  pub check_permission_or_raise_iff :
      ((check_permission_or_raise r ≡ ok tt) ↔ Grants r)
      × (check_permission r ≡ ok false
          → check_permission_or_raise r ≡ err (permission_error r.user_role r.user_id r.operation))
  check_permission_or_raise_iff = (
    (
      λ h. (check_permission-Grants r).0 (raise_ok h),
      λ g. raise_of_ok ((check_permission-Grants r).1 g),
    ),
    raise_of_refused,
  )

  -- An ordinary request with a well-formed mode, for an operation that is no single flag, has no
  -- letter to look for, and is granted by any entry for the caller's role, whatever its letters.
  pub check_permission-composite :
      IsOrdinary r
      → (bits : Bits) → parse_octal (get_or r.permissions.mode "000") ≡ ok bits
      → op_char r.operation ≡ ""
      → (letter : String) → HasEntry r.user_role letter (get_or r.permissions.acl [])
      → check_permission r ≡ ok true
  check_permission-composite o bits p e letter h =
      (check_permission-Grants r).1 (by_acl o bits p (rw e (HasEntry-any h)))
