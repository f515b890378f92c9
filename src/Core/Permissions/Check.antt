-- ===== src/Core/Permissions/Check.antt =====
-- The decisions of src/lumina/core/permissions.py: group membership, the access lists, the domain
-- roles and `check_permission` itself.

use Prim.Native.Nat.{bit_and}
use lumina_framework.Base.{
  get_or, ℕ, String, Bool, true, false, ◌&&◌, ◌||◌, not, Option, none, some, List, [], ◌∷◌, Result,
  ok, err, ◌>>=◌, str_eq, if◌then◌else◌, ◌==◌, elem, is_infix,
}
use lumina_framework.Base.Dict.{Dict, get}
use lumina_framework.Core.Permissions.Model.{
  ingest, Error, permission_error, Bits, parse_octal, AclEntry, entry, Members, GuestAccess,
  ModulePermissions, RoleDef, role_def, DomainRolesConfig, Request, op_char, guest_op_char,
}

-- `value == text` where the value may be `None`.
abbrev pub is_text : Option String → String → Bool
is_text none s = false
is_text (some t) s = str_eq t s

-- `op_char in access`, for an entry that the loop does not skip.
unfoldable pub access_allows : Option String → String → Bool
unfolding is_infix
access_allows access op = is_infix op (get_or access "")

-- The loop over `acl` by the system role.
unfoldable pub acl_grants : String → String → List AclEntry → Bool
unfolding access_allows
acl_grants user_role op [] = false
acl_grants user_role op (AclEntry.not_mapping ∷ acl) = acl_grants user_role op acl
acl_grants user_role op (entry role domain_role access ∷ acl) =
    (is_text role user_role && access_allows access op) || acl_grants user_role op acl

-- The loop over `role_acl`, and over `acl`, by the domain role.
unfoldable pub domain_acl_grants : String → String → List AclEntry → Bool
unfolding access_allows
domain_acl_grants domain_role op [] = false
domain_acl_grants domain_role op (AclEntry.not_mapping ∷ acl) = domain_acl_grants domain_role op acl
domain_acl_grants domain_role op (entry role keyed access ∷ acl) =
    (is_text keyed domain_role && access_allows access op) || domain_acl_grants domain_role op acl

-- The loop that looks for the definition of a domain role: its `default_access`.
unfoldable pub find_role : String → List RoleDef → Option (Option String)
find_role domain_role [] = none
find_role domain_role (RoleDef.not_mapping ∷ roles) = find_role domain_role roles
find_role domain_role (role_def role_id default_access ∷ roles) =
    if is_text role_id domain_role then some default_access else find_role domain_role roles

unfoldable pub check_domain_role : String → String → DomainRolesConfig → ModulePermissions → Bool
unfolding find_role access_allows domain_acl_grants
check_domain_role domain_role op config permissions =
    elim (find_role domain_role (get_or config.roles [])) [
      | none ↦ false
      | some default_access ↦
          access_allows default_access op
          || domain_acl_grants domain_role op (get_or config.role_acl [])
          || domain_acl_grants domain_role op (get_or permissions.acl [])
    ]

-- `domain_role and domain_role in names`
unfoldable pub holds_domain_role : Option String → List String → Bool
unfolding elem
holds_domain_role none names = false
holds_domain_role (some d) names = not (str_eq d "") && elem d names

unfoldable pub member_of : String → Option String → Option Members → Bool
unfolding elem holds_domain_role
member_of user_role domain_role none = false
member_of user_role domain_role (some m) =
    elem user_role (get_or m.system_roles [])
    || holds_domain_role domain_role (get_or m.domain_roles [])

unfoldable pub is_group_member :
    String → Option String → Option (Dict (Option Members)) → String → Bool
unfolding get member_of
is_group_member user_role domain_role groups_config group_name =
    if str_eq user_role "admin" then true else elim (get group_name (get_or groups_config [])) [
      | none ↦ str_eq user_role group_name
      | some members ↦ member_of user_role domain_role members
    ]

-- `module_id not in governed_modules`, where both are given.
unfoldable pub outside_scope : Option (List String) → Option String → Bool
unfolding elem
outside_scope (some governed) (some module_id) = not (elem module_id governed)
outside_scope _ _ = false

unfoldable pub guest_allows : Option GuestAccess → ℕ → Bool
unfolding guest_op_char is_infix
guest_allows none operation = false
guest_allows (some g) operation =
    g.enabled && is_infix (guest_op_char operation) (get_or g.permissions "")

-- The bits of the caller's category.
unfoldable pub category_bits : Request → Bits → ℕ
unfolding is_group_member
category_bits r bits =
    if str_eq r.user_id (get_or r.permissions.owner "")
    then bits.0
    else if is_group_member r.user_role r.domain_role r.groups_config
        (get_or r.permissions.group "")
    then bits.1
    else bits.2

-- `bits & operation`, as a test.
unfoldable pub has_bits : ℕ → ℕ → Bool
has_bits bits operation = not (bit_and bits operation == 0)

-- Step 7: the additive overlay of the domain role, `op` being the operation's letter.
unfoldable pub domain_overlay :
    String → ModulePermissions → Option String → Option DomainRolesConfig → Bool
unfolding check_domain_role
domain_overlay op permissions (some d) (some config) =
    not (str_eq d "") && not (str_eq op "") && check_domain_role d op config permissions
domain_overlay op permissions _ _ = false

-- Steps 4 to 7, once the mode is parsed.
unfoldable pub check_bits : Request → Bits → Bool
unfolding category_bits has_bits op_char acl_grants domain_overlay
check_bits r bits =
    has_bits (category_bits r bits) r.operation
    || acl_grants r.user_role (op_char r.operation) (get_or r.permissions.acl [])
    || domain_overlay (op_char r.operation) r.permissions r.domain_role r.domain_roles_config

unfoldable pub check_permission : Request → Result Error Bool
unfolding outside_scope acl_grants guest_allows parse_octal check_bits
check_permission r =
    if str_eq r.user_role "root"
    then ok true
    else if str_eq r.user_role "admin" && outside_scope r.governed_modules r.module_id
    then ok false
    else if r.operation == ingest
    then ok (acl_grants r.user_role "i" (get_or r.permissions.acl []))
    else if str_eq r.user_role "guest"
    then ok (guest_allows r.permissions.guest_access r.operation)
    else do bits ← parse_octal (get_or r.permissions.mode "000"); ok (check_bits r bits)

unfoldable pub check_permission_or_raise : Request → Result Error (Unit {0})
check_permission_or_raise r = do
  granted ← check_permission r
  if granted then ok tt else err (permission_error r.user_role r.user_id r.operation)
