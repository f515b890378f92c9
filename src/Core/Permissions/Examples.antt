-- ===== src/Core/Permissions/Examples.antt =====
-- Tests of the model of src/lumina/core/permissions.py, and its theorems at concrete requests.
use lumina_framework.Base.{
  ◌<◌, true, false, none, some, List, [], ◌∷◌, ◌++◌, ok, err, ◌≡◌, refl, ◌↔◌, is_infix, ne_of_test,
  arith,
}
use lumina_framework.Core.Permissions.Model.{
  read, write, execute, ingest, invalid_mode, Bits, parse_octal, entry, ModulePermissions, role_def,
  Request, op_char, AclEntry,
}
use lumina_framework.Core.Permissions.Check.{check_permission}
use lumina_framework.Core.Permissions.Modes.{
  mode_to_symbolic, read_symbolic, read_symbolic-mode_to_symbolic,
}
use lumina_framework.Core.Permissions.Entries.{HasEntry}
use lumina_framework.Core.Permissions.Grants.{Grants, IsOrdinary, check_permission-Grants}
use lumina_framework.Core.Permissions.Laws.{
  check_permission-extended, check_permission-err_iff, check_permission-composite,
}

symbolic_test : mode_to_symbolic "750" ≡ ok "rwxr-x---"
unfolding mode_to_symbolic
symbolic_test = refl

mode_test : parse_octal "758" ≡ err (invalid_mode "758")
unfolding parse_octal
mode_test = refl

-- A module of alice's that operators may ingest into and read.
abbrev block : ModulePermissions
block = record {
  mode = some "740";
  owner = some "alice";
  group = some "operator";
  acl = some (entry (some "user") none (some "i") ∷ entry none (some "tutor") (some "rx") ∷ []);
  guest_access = none;
}

abbrev by_operator : Request
by_operator = record {
  user_id = "bob";
  user_role = "operator";
  permissions = block;
  operation = read;
  domain_role = none;
  domain_roles_config = none;
  groups_config = none;
  governed_modules = none;
  module_id = none;
}

abbrev by_tutor : Request
by_tutor = record by_operator {
  user_role = "user";
  operation = execute;
  domain_role = some "tutor";
  domain_roles_config =
      some (record { roles = some (role_def (some "tutor") none ∷ []); role_acl = none });
}

group_test : check_permission by_operator ≡ ok true
unfolding check_permission
group_test = refl

group_write_test : check_permission (record by_operator { operation = write }) ≡ ok false
unfolding check_permission
group_write_test = refl

tutor_test : check_permission by_tutor ≡ ok true
unfolding check_permission
tutor_test = refl

scope_test :
    check_permission (record by_operator {
      user_id = "alice";
      user_role = "admin";
      governed_modules = some ("m-1" ∷ []);
      module_id = some "m-2";
    })
    ≡ ok false
unfolding check_permission
scope_test = refl

check_permission-Grants_example : (check_permission by_tutor ≡ ok true) ↔ Grants by_tutor
check_permission-Grants_example = check_permission-Grants by_tutor

abbrev ingesting : Request
ingesting = record by_tutor { operation = ingest }

abbrev more : List AclEntry
more = entry (some "operator") none (some "w") ∷ []

check_permission-extended_example :
    check_permission (record by_operator {
      permissions = record block {
        acl = some (
            (entry (some "user") none (some "i") ∷ entry none (some "tutor") (some "rx") ∷ [])
            ++ more);
      };
    })
    ≡ ok true
check_permission-extended_example = check_permission-extended by_operator more group_test

-- The module with a mode that is no octal mode.
abbrev malformed : Request
malformed = record by_operator { permissions = record block { mode = some "7a0" } }

malformed_test : check_permission malformed ≡ err (invalid_mode "7a0")
unfolding check_permission parse_octal
malformed_test = refl

check_permission-err_iff_example :
    (check_permission malformed ≡ err (invalid_mode "7a0"))
    ↔ (IsOrdinary malformed × (parse_octal "7a0" ≡ err (invalid_mode "7a0")))
check_permission-err_iff_example = check_permission-err_iff malformed (invalid_mode "7a0")

-- READ and WRITE at once, by a user whom the list lets only ingest.
abbrev composite : Request
composite = record by_tutor { operation = 6; domain_role = none }

composite-IsOrdinary : IsOrdinary composite
composite-IsOrdinary = record {
  not_root = ne_of_test "user" "root" refl;
  in_scope = λ e. absurd (ne_of_test "user" "admin" refl e);
  not_ingest = omega arith;
  not_guest = ne_of_test "user" "guest" refl;
}

check_permission-composite_example : check_permission composite ≡ ok true
unfolding parse_octal op_char is_infix
check_permission-composite_example =
    check_permission-composite composite composite-IsOrdinary (7, 4, 0) refl refl "i"
      (HasEntry.here none (some "i") _ refl)

read_symbolic-mode_to_symbolic_example :
    (b : Bits) × (parse_octal "750" ≡ ok b)
    × (read_symbolic "rwxr-x---" ≡ some b)
    × (b.0 < 8)
    × (b.1 < 8)
    × (b.2 < 8)
read_symbolic-mode_to_symbolic_example = read_symbolic-mode_to_symbolic "750" symbolic_test
