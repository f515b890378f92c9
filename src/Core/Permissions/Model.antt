-- ===== src/Core/Permissions/Model.antt =====
-- The data of src/lumina/core/permissions.py: operations, role tiers, octal modes, and the blocks of
-- a domain-physics document that the checker reads.
-- A field of a block is `none` where its key is missing. A list that is not a list, and an entry of
-- a list that is not a mapping, are values of their own, since the source tests for them.
use Prim.Native.Char.{Char, code}
use lumina_framework.Base.{
  get_or, ℕ, ◌-◌, String, Bool, ◌&&◌, Option, List, [], ◌∷◌, Result, ok, err, if◌then◌else◌, leb,
  ◌==◌,
}
use lumina_framework.Base.Dict.{Dict, get}

-- The operation is a flag set: a sum of the four bits.
abbrev pub read : ℕ
read = 4

abbrev pub write : ℕ
write = 2

abbrev pub execute : ℕ
execute = 1

abbrev pub ingest : ℕ
ingest = 8

abbrev pub tier_levels : Dict ℕ
tier_levels =
    ("root", 0)
    ∷ ("super_admin", 1)
    ∷ ("admin", 2)
    ∷ ("operator", 3)
    ∷ ("half_operator", 4)
    ∷ ("user", 5)
    ∷ ("guest", 6)
    ∷ []

unfoldable pub tier_level : String → ℕ
unfolding get
tier_level role = get_or (get role tier_levels) 99

unfoldable pub check_min_tier : String → String → Bool
unfolding tier_level
check_min_tier user_role min_tier = leb (tier_level user_role) (tier_level min_tier)

pub data Error : Type 0 where
  invalid_mode : String → Error
  permission_error : String → String → ℕ → Error

-- The owner, group and others bits.
abbrev pub Bits : Type 0
Bits = ℕ × ℕ × ℕ

-- `c in "01234567"`, and `int(c)` of such a character.
unfoldable pub is_octal : Char → Bool
is_octal c = leb b'0' (code c) && leb (code c) b'7'

unfoldable pub digit : Char → ℕ
digit c = code c - b'0'

unfoldable pub parse_octal : String → Result Error Bits
unfolding is_octal digit
parse_octal (String.◌∷◌ a (String.◌∷◌ b (String.◌∷◌ c String.[]))) =
    if is_octal a && (is_octal b && is_octal c)
    then ok (digit a, digit b, digit c)
    else err (invalid_mode (String.◌∷◌ a (String.◌∷◌ b (String.◌∷◌ c String.[]))))
parse_octal mode = err (invalid_mode mode)

-- An entry of an `acl` or `role_acl` list.
pub data AclEntry : Type 0 where
  not_mapping : AclEntry
  entry : Option String → Option String → Option String → AclEntry

-- The `members` block of a group: its system roles and its domain roles.
pub record Members : Type 0 where
  pub system_roles : Option (List String)
  pub domain_roles : Option (List String)

pub record GuestAccess : Type 0 where
  pub enabled : Bool
  pub permissions : Option String

-- The `permissions` block. `acl` is `none` where it is missing or no list, `guest_access` where it
-- is missing or no mapping.
pub record ModulePermissions : Type 0 where
  pub mode : Option String
  pub owner : Option String
  pub group : Option String
  pub acl : Option (List AclEntry)
  pub guest_access : Option GuestAccess

pub data RoleDef : Type 0 where
  not_mapping : RoleDef
  role_def : Option String → Option String → RoleDef

-- The `domain_roles` block; a list is `none` where it is missing or no list.
pub record DomainRolesConfig : Type 0 where
  pub roles : Option (List RoleDef)
  pub role_acl : Option (List AclEntry)

pub record Request : Type 0 where
  pub user_id : String
  pub user_role : String
  pub permissions : ModulePermissions
  pub operation : ℕ
  pub domain_role : Option String
  pub domain_roles_config : Option DomainRolesConfig
  pub groups_config : Option (Dict (Option Members))
  pub governed_modules : Option (List String)
  pub module_id : Option String

-- `{READ: "r", WRITE: "w", EXECUTE: "x", INGEST: "i"}.get(operation, "")`
unfoldable pub op_char : ℕ → String
op_char operation =
    if operation == read
    then "r"
    else if operation == write
    then "w"
    else if operation == execute
    then "x"
    else if operation == ingest
    then "i"
    else ""

-- `{READ: "r", WRITE: "w", EXECUTE: "x"}.get(operation, "")`
unfoldable pub guest_op_char : ℕ → String
guest_op_char operation =
    if operation == read
    then "r"
    else if operation == write
    then "w"
    else if operation == execute
    then "x"
    else ""
