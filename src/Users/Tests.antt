-- ===== src/Users/Tests.antt =====
-- The service at a small database, and the theorems at it.
use text.Mathlib.TextEquality.{eq_iff}
use proxora.Common.{
  String, List, [], ◌∷◌, true, false, none, some, ◌≡◌, refl, includes, add, add_all, unique,
  string_eq, lookup, ◌⧺◌, map, ◌⊎◌, inl, arith,
}
use proxora.Kind.{vm, lxc, kind_name}
use proxora.Rbac.Catalog.{permissions, permission_catalog, legacy_permission_aliases}
use proxora.Rbac.Grants.{expand_permissions, is_permission, sanitize_permissions, has_permission}
use proxora.Rbac.Guests.{
  is_guest_action_permission, guest_grant_catalog, normalize_guest_permissions,
}
use proxora.Scope.{parse_guest_kind, guests_of, can_access_host}
use proxora.Database.{
  Database, UserRow, RoleRow, SessionRow, UserStatus, find_first, find_user, delete_sessions,
}
use proxora.Database.Run.{done, failed, query, and_then, found, require}
use proxora.Session.{destroy_user_sessions, to_session_user, scope_of}
use proxora.Users.{
  GuestGrantInput, with_scope, distinct, guest_rows_from_input, host_rows_from_input,
  to_guest_grants, to_host_grants,
}
use proxora.Users.Accounts.{
  UpdateUserInput, set_user, signed_out, columns, update_user, delete_user, create_user,
}
use proxora.Users.Accounts.Isolation.{IsUntouched, sessions_of, update_user-IsUntouched}
use proxora.Users.Accounts.SignOut.{update_user-sessions}
use proxora.Users.Accounts.Written.{row_after, shown_after, update_user-updated}
use proxora.Users.Accounts.Clash.{stripped, update_user-clash}
use proxora.Users.Roles.{delete_role}
use proxora.Users.Operations.{
  Operation, updating_user, deleting_user, deleting_role, after, after_all,
}
use proxora.Users.Relations.{IsConsistent}
use proxora.Users.Consistency.{after_all-IsConsistent}
use proxora.Users.SystemRoles.{IsSystemRole, after_all-IsSystemRole}
use proxora.Users.Grants.{normalized_grant, to_guest_grants-guest_rows_from_input}

running : Unit {0}
unfolding expand_permissions is_permission sanitize_permissions has_permission permissions
    permission_catalog legacy_permission_aliases is_guest_action_permission guest_grant_catalog
    normalize_guest_permissions includes add add_all unique lookup kind_name guests_of
    parse_guest_kind find_first delete_sessions and_then found require destroy_user_sessions
    distinct guest_rows_from_input host_rows_from_input to_guest_grants to_host_grants with_scope
    set_user signed_out columns update_user delete_user create_user IsConsistent after after_all
    IsSystemRole delete_role
running = tt

abbrev viewer : RoleRow
viewer = record {
  id = "r1";
  slug = "watcher";
  name = "Watcher";
  description = "";
  is_system = false;
  permissions = "hosts.view" ∷ "vm.view" ∷ [];
}

abbrev user_named : (id username : String) → UserRow
user_named id username = record {
  id = id;
  username = username;
  email = username ⧺ "@lab";
  password_hash = "x";
  status = UserStatus.active;
  role_id = "r1";
  host_access = record { host_id = "pve1"; permissions = some []; override = false } ∷ [];
  guest_access = [];
  totp_enabled = false;
  totp_secret = none;
  totp_recovery_hashes = [];
}

abbrev session_named : (id user_id : String) → SessionRow
session_named id user_id = record {
  id = id;
  user_id = user_id;
  token_hash = "hash of " ⧺ id;
  ip = none;
  user_agent = none;
  expires_at = 5000;
}

abbrev db : Database
db = record {
  users = user_named "u1" "ann" ∷ user_named "u2" "bob" ∷ [];
  roles = viewer ∷ [];
  sessions = session_named "s1" "u1" ∷ session_named "s2" "u2" ∷ [];
}

-- Any function serves as the hash here.
abbrev hash : String → String
hash password = "hashed " ⧺ password

abbrev nothing : UpdateUserInput
nothing = record {
  email = none;
  password = none;
  role_id = none;
  status = none;
  host_ids = none;
  hosts = none;
  guests = none;
}

abbrev guests : List GuestGrantInput
guests =
    record { host_id = "pve1"; kind = vm; vmid = 104; permissions = some ("vm.files.write" ∷ []) }
    ∷ record { host_id = "pve1"; kind = lxc; vmid = 104; permissions = none }
    ∷ []

-- A new password, a new email and new lists.
abbrev change : UpdateUserInput
change = record nothing {
  email = some "ann@home";
  password = some "correct horse";
  host_ids = some ("pve1" ∷ "pve2" ∷ []);
  guests = some guests;
}

abbrev twice : UpdateUserInput
twice = record nothing { host_ids = some ("pve2" ∷ "pve2" ∷ []) }

update_user-updated_example :
    ((update_user hash "u1" change db).0
      ≡ done (shown_after hash change (user_named "u1" "ann") viewer))
    × (find_user "u1" (update_user hash "u1" change db).1
        ≡ some (row_after hash change (user_named "u1" "ann")))
unfolding running
update_user-updated_example =
    update_user-updated hash "u1" change db (user_named "u1" "ann") viewer refl refl refl refl refl

update_user-IsUntouched_example : IsUntouched "u2" db (update_user hash "u1" change db).1
update_user-IsUntouched_example =
    update_user-IsUntouched "u1" "u2" (λ e. cc ((eq_iff "u1" "u2").1 e)) db hash change

update_user-sessions_example :
    ((update_user hash "u1" change db).1 ≡ db)
    ⊎ (sessions_of "u1" (update_user hash "u1" change db).1 ≡ [])
update_user-sessions_example =
    update_user-sessions hash "u1" change db
      (inl ("correct horse", refl, ground (arith, eq_iff "correct horse" "")))

update_user-clash_example :
    ((update_user hash "u1" twice db).0 ≡ failed query)
    × (find_user "u1" (update_user hash "u1" twice db).1
        ≡ some (stripped hash twice (user_named "u1" "ann")))
    × ((host_id : String)
        → can_access_host
            (scope_of (to_session_user (stripped hash twice (user_named "u1" "ann")) viewer))
            host_id
          ≡ true)
unfolding running
update_user-clash_example =
    update_user-clash hash "u1" twice db (user_named "u1" "ann") viewer refl refl refl refl refl
      refl refl

abbrev operations : List Operation
operations =
    updating_user "u1" change
    ∷ deleting_role "r1"
    ∷ deleting_user "u2" "u1"
    ∷ updating_user "u1" twice
    ∷ []

after_all-IsConsistent_example : IsConsistent (after_all hash operations db)
unfolding running
after_all-IsConsistent_example =
    after_all-IsConsistent hash operations db ((refl, (refl, tt)), (refl, (refl, tt)))

to_guest_grants-guest_rows_from_input_example :
    to_guest_grants (guest_rows_from_input guests) ≡ map normalized_grant guests
to_guest_grants-guest_rows_from_input_example = to_guest_grants-guest_rows_from_input guests

role_in_use_stays : (after hash (deleting_role "r1") db).roles ≡ viewer ∷ []
unfolding running
role_in_use_stays = refl

deleted_user_is_signed_out :
    (after hash (deleting_user "u2" "u1") db).sessions ≡ session_named "s1" "u1" ∷ []
unfolding running
deleted_user_is_signed_out = refl

abbrev with_admin : Database
with_admin = record db {
  roles = viewer ∷ record viewer { id = "r2"; slug = "super-admin"; is_system = true } ∷ [];
}

after_all-IsSystemRole_example :
    IsSystemRole "r2" "super-admin"
      (after_all hash (deleting_role "r2" ∷ operations) with_admin).roles
unfolding running
after_all-IsSystemRole_example =
    after_all-IsSystemRole "r2" "super-admin" hash (deleting_role "r2" ∷ operations) with_admin
      (record viewer { id = "r2"; slug = "super-admin"; is_system = true }, refl, refl, refl)
