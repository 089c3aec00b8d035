-- ===== src/Session/Tests.antt =====
-- Sessions of one user of a small database, and the theorems at them.
use text.Mathlib.TextEquality.{eq_iff}
use proxora.Common.{
  ◌+◌, ◌*◌, String, List, [], ◌∷◌, true, false, Option, none, some, ◌≡◌, ◌≢◌, refl, includes, add,
  add_all, unique, string_eq, ◌==◌, nat_eq, decimal, insert, lookup, ◌⧺◌, arith,
}
use proxora.Kind.{vm, kind_name}
use proxora.Rbac.Catalog.{permissions, permission_catalog, legacy_permission_aliases}
use proxora.Rbac.Grants.{expand_permissions, is_permission, sanitize_permissions, has_permission}
use proxora.Rbac.Guests.{is_host_scoped_permission, is_guest_action_permission}
use proxora.Rbac.Holder.{GuestPermissionRef, override_at, user_has_permission, guest_permission_key}
use proxora.Rbac.Presets.{
  role_presets, administrator_permissions, operator_permissions, viewer_permissions,
  nothing_permissions,
}
use proxora.Scope.{
  can_access_host, session_scope_from_grants, guests_of, parse_guest_kind, allowed_hosts,
  guest_scope_key, lock_hosts_without_host_view,
}
use proxora.Database.{Database, UserRow, RoleRow, UserStatus, find_first, delete_sessions}
use proxora.Session.{
  Server, AuthSession, to_session_user, scope_of, holder_of, ensure_system_roles, session_days,
  day_ms, create_session, get_session_from_token, destroy_user_sessions, find_session_record,
}
use proxora.Session.User.{
  sees_host, to_session_user-can_access_host, to_session_user-host_permission,
  to_session_user-guest_permission,
}
use proxora.Session.Roles.{IsSynchronised, preset_at, role_at-ensure_system_roles}
use proxora.Session.Lookup.{
  Authenticated, get_session_from_token-Authenticated, get_session-destroyed,
}
use proxora.Session.Created.{get_session-create_session}

running : Unit {0}
unfolding expand_permissions is_permission sanitize_permissions has_permission permissions
    permission_catalog legacy_permission_aliases is_host_scoped_permission
    is_guest_action_permission override_at user_has_permission administrator_permissions
    operator_permissions viewer_permissions nothing_permissions role_presets includes add add_all
    unique lookup insert decimal kind_name session_scope_from_grants guests_of parse_guest_kind
    allowed_hosts guest_scope_key guest_permission_key lock_hosts_without_host_view find_first
    delete_sessions to_session_user ensure_system_roles session_days day_ms create_session
    get_session_from_token destroy_user_sessions find_session_record can_access_host
running = tt

abbrev stored_operator : RoleRow
stored_operator = record {
  id = "r1";
  slug = "operator";
  name = "Operator";
  description = "edited by hand";
  is_system = false;
  permissions = "hosts.delete" ∷ [];
}

abbrev ann : UserRow
ann = record {
  id = "u1";
  username = "ann";
  email = "ann@lab";
  password_hash = "x";
  status = UserStatus.active;
  role_id = "r1";
  host_access =
      record { host_id = "pve1"; permissions = none; override = false }
      ∷ record { host_id = "pve2"; permissions = some ("hosts.view" ∷ []); override = true }
      ∷ [];
  guest_access =
      record {
        host_id = "pve1";
        kind = "vm";
        vmid = 104;
        permissions = some ("vm.view" ∷ []);
        override = true;
      }
      ∷ [];
  totp_enabled = false;
  totp_secret = none;
  totp_recovery_hashes = [];
}

abbrev server : Server
server = record {
  db = record { users = ann ∷ []; roles = stored_operator ∷ []; sessions = [] };
  started = false;
}

-- Any function serves as the hash here.
abbrev hash : String → String
hash token = "sha:" ⧺ token

abbrev new_role_id : String → String
new_role_id slug = "role-" ⧺ slug

abbrev opened : Database
opened = (create_session hash none "t1" "s1" "u1" none none 1000 server.db).1

abbrev opened_server : Server
opened_server = record { db = opened; started = false }

abbrev session_of : Option AuthSession → Option (String × String × List String)
session_of none = none
session_of (some a) = some (a.id, a.user.id, a.user.role.permissions)

opened_session :
    session_of (get_session_from_token hash new_role_id (some "t1") 2000 opened_server).0
    ≡ some ("s1", "u1", operator_permissions)
unfolding running
opened_session = refl

expired_session :
    (get_session_from_token hash new_role_id
      (some "t1")
      (1001 + 7 * day_ms)
      opened_server).1.db.sessions
    ≡ []
unfolding running
expired_session = refl

to_session_user-can_access_host_example :
    can_access_host (scope_of (to_session_user ann stored_operator)) "pve3"
    ≡ sees_host ("pve1" ∷ "pve2" ∷ []) ("pve1" ∷ []) false "pve3"
unfolding guests_of parse_guest_kind has_permission expand_permissions legacy_permission_aliases
    lookup includes add
to_session_user-can_access_host_example = to_session_user-can_access_host ann stored_operator "pve3"

to_session_user-host_permission_example :
    user_has_permission
      (holder_of (to_session_user ann stored_operator))
      "hosts.delete"
      (some "pve2")
      none
    ≡ has_permission (some ("hosts.view" ∷ [])) "hosts.delete"
unfolding is_permission permissions includes is_host_scoped_permission permission_catalog
to_session_user-host_permission_example =
    to_session_user-host_permission ann stored_operator "hosts.delete" "pve2"
      (ground (arith, eq_iff "pve2" "")) refl refl

abbrev web : GuestPermissionRef
web = record { host_id = "pve1"; kind = vm; vmid = 104 }

to_session_user-guest_permission_example :
    user_has_permission
      (holder_of (to_session_user ann stored_operator))
      "vm.start"
      (some "pve1")
      (some web)
    ≡ has_permission (some ("vm.view" ∷ [])) "vm.start"
unfolding is_permission permissions includes is_guest_action_permission parse_guest_kind
to_session_user-guest_permission_example =
    to_session_user-guest_permission ann stored_operator "vm.start" (some "pve1") web
      ("vm.view" ∷ []) refl refl refl

role_at-ensure_system_roles_example :
    IsSynchronised
      (preset_at "operator" role_presets)
      (find_first (λ r. r.slug == "operator") server.db.roles)
      (find_first (λ r. r.slug == "operator") (ensure_system_roles new_role_id server).db.roles)
role_at-ensure_system_roles_example = role_at-ensure_system_roles new_role_id server "operator" refl

abbrev first_session : AuthSession
first_session = record {
  id = "s1";
  user = to_session_user ann (record stored_operator {
    permissions = operator_permissions;
    is_system = true;
    description = "Start, stop and open consoles for VMs and containers.";
  });
  expires_at = 1000 + 7 * day_ms;
}

get_session_from_token-Authenticated_example :
    Authenticated (ensure_system_roles new_role_id opened_server).db (hash "t1") 2000 first_session
unfolding running
get_session_from_token-Authenticated_example =
    get_session_from_token-Authenticated hash new_role_id "t1" 2000 opened_server first_session refl

abbrev bob : UserRow
bob = record ann { id = "u2"; username = "bob"; host_access = []; guest_access = [] }

abbrev two_users : Server
two_users = record {
  db = record {
    users = ann ∷ bob ∷ [];
    roles = stored_operator ∷ [];
    sessions = (create_session hash none "t2" "s2" "u2" none none 1000 opened).1.sessions;
  };
  started = true;
}

abbrev two_users_db : Database
two_users_db = record {
  users = ann ∷ bob ∷ [];
  roles = stored_operator ∷ [];
  sessions = opened.sessions;
}

abbrev bob_session : AuthSession
bob_session = record {
  id = "s2";
  user = to_session_user bob stored_operator;
  expires_at = 1000 + 7 * day_ms;
}

get_session-destroyed_example : bob_session.user.id ≢ "u1"
unfolding running
get_session-destroyed_example =
    get_session-destroyed hash new_role_id "t2" 2000 two_users "u1" bob_session refl

get_session-create_session_example :
    (get_session_from_token hash new_role_id (some "t2") 2000 (record two_users {
      db = (create_session hash none "t2" "s2" "u2" none none 1000 two_users_db).1;
    })).0
    ≡ some bob_session
unfolding running
get_session-create_session_example =
    get_session-create_session hash new_role_id none "t2" "s2" none none 1000 2000
      (record two_users { db = two_users_db }) bob stored_operator (ground (arith, eq_iff "t2" ""))
      refl refl refl refl (omega arith)
