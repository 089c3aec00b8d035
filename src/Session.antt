-- ===== src/Session.antt =====
-- server/auth/session-core.ts and server/services/role-sync.ts: sessions, and the shipped roles that
-- are written to the database before the first session is read. SHA-256, random tokens and the ids of
-- new rows come from outside. The queries are taken to succeed, and each to see the foreign keys kept.
pub mod Roles
pub mod Lookup
pub mod Created
pub mod User
mod Tests
use proxora.Common.{
  ℕ, ◌+◌, ◌*◌, ◌-◌, ◌/◌, String, List, [], ◌∷◌, ◌++◌, Bool, true, false, not, Option, none, some,
  map, string_eq, ◌&&◌, ◌==◌, ltb, if◌then◌else◌,
}
use proxora.Kind.{Kind, vm, lxc}
use proxora.Errors.{AppError, Result, ok, err, forbidden, not_found}
use proxora.Rbac.Catalog.{Permission}
use proxora.Rbac.Grants.{sanitize_permissions, has_permission}
use proxora.Rbac.Holder.{PermissionHolder, truthy}
use proxora.Rbac.Presets.{RolePreset, role_presets}
use proxora.Scope.{
  AccessScope, GuestScope, PermissionMap, session_scope_from_grants, lock_hosts_without_host_view,
  can_access_host, can_access_guest,
}
use proxora.Database.{
  Database, UserRow, RoleRow, SessionRow, UserStatus, find_user, find_role, find_session,
  delete_sessions,
}

pub record SessionRole : Type 0 where
  pub id : String
  pub slug : String
  pub name : String
  pub permissions : List String

pub record SessionUser : Type 0 where
  pub id : String
  pub username : String
  pub email : String
  pub role : SessionRole
  pub allowed_host_ids : Option (List String)
  pub allowed_guests : Option (List GuestScope)
  pub host_permissions : Option PermissionMap
  pub guest_permissions : Option PermissionMap

pub record AuthSession : Type 0 where
  pub id : String
  pub user : SessionUser
  pub expires_at : ℕ

-- A session user as the argument of the functions of guest-scope.ts and of permissions.ts.
abbrev pub scope_of : SessionUser → AccessScope
scope_of user = record {
  allowed_host_ids = user.allowed_host_ids;
  allowed_guests = user.allowed_guests;
}

abbrev pub holder_of : SessionUser → PermissionHolder
holder_of user = record {
  role = some user.role.permissions;
  host_permissions = user.host_permissions;
  guest_permissions = user.guest_permissions;
}

-- `granted ? sanitizePermissions(granted) : null`
abbrev pub sanitize_override : Option (List String) → Option (List String)
sanitize_override none = none
sanitize_override (some granted) = some (sanitize_permissions granted)

-- `Object.fromEntries(Object.entries(overrides).map(...))`
sanitize_map : PermissionMap → PermissionMap
sanitize_map [] = []
sanitize_map ((key, granted) ∷ m) = (key, sanitize_override granted) ∷ sanitize_map m

sanitize_maps : Option PermissionMap → Option PermissionMap
unfolding sanitize_map
sanitize_maps none = none
sanitize_maps (some m) = some (sanitize_map m)

unfoldable pub to_session_user : UserRow → RoleRow → SessionUser
unfolding sanitize_maps
to_session_user user role =
    let scope = session_scope_from_grants user.host_access user.guest_access in
    record {
      id = user.id;
      username = user.username;
      email = user.email;
      role = record {
        id = role.id;
        slug = role.slug;
        name = role.name;
        permissions = role.permissions;
      };
      allowed_host_ids =
          lock_hosts_without_host_view scope.access.allowed_host_ids
            (has_permission (some role.permissions) "hosts.view");
      allowed_guests = scope.access.allowed_guests;
      host_permissions = sanitize_maps scope.host_permissions;
      guest_permissions = sanitize_maps scope.guest_permissions;
    }

-- One upsert of `syncSystemRoles`; `new_id` is the id that the database gives a new row.
upsert_role : (new_id : String → String) → String → RolePreset → List RoleRow → List RoleRow
upsert_role new_id slug preset [] =
    record {
      id = new_id slug;
      slug = slug;
      name = preset.name;
      description = preset.description;
      is_system = true;
      permissions = preset.permissions;
    }
    ∷ []
upsert_role new_id slug preset (r ∷ roles) =
    if r.slug == slug
    then record r {
      name = preset.name;
      description = preset.description;
      is_system = true;
      permissions = preset.permissions;
    }
      ∷ roles
    else r ∷ upsert_role new_id slug preset roles

sync_system_roles :
    (new_id : String → String) → List (String × RolePreset) → List RoleRow → List RoleRow
sync_system_roles new_id [] roles = roles
sync_system_roles new_id ((slug, preset) ∷ presets) roles =
    sync_system_roles new_id presets (upsert_role new_id slug preset roles)

-- The process: the database, and whether `started` is set in role-sync.ts.
pub record Server : Type 0 where
  pub db : Database
  pub started : Bool

unfoldable pub ensure_system_roles : (new_id : String → String) → Server → Server
unfolding sync_system_roles upsert_role
ensure_system_roles new_id server = if server.started then server else record {
  db = record (server.db) { roles = sync_system_roles new_id role_presets server.db.roles };
  started = true;
}

-- SESSION_DAYS as a number: `none` if it is not finite or not positive. Fractions are left out.
unfoldable pub session_days : Option ℕ → ℕ
session_days none = 7
session_days (some n) = if ltb 365 n then 365 else if ltb 0 n then n else 7

unfoldable pub day_ms : ℕ
day_ms = 24 * 60 * 60 * 1000

module _ (sha256 : String → String) where
  -- `token` and the row's `id` are random; the result is the token and its expiry.
  unfoldable pub create_session :
      Option ℕ
      → (token id user_id : String) → Option String
      → Option String
      → (now : ℕ) → Database
      → (String × ℕ) × Database
  create_session days token id user_id ip user_agent now db =
      let expires_at = now + session_days days * day_ms in
      let row : SessionRow = record {
        id = id;
        user_id = user_id;
        token_hash = sha256 token;
        ip = ip;
        user_agent = user_agent;
        expires_at = expires_at;
      } in
      ((token, expires_at), record db { sessions = db.sessions ++ row ∷ [] })

  unfoldable pub destroy_session : String → Database → Database
  destroy_session token = delete_sessions (λ s. s.token_hash == sha256 token)

unfoldable pub destroy_user_sessions : String → Option String → Database → Database
destroy_user_sessions user_id none = delete_sessions (λ s. s.user_id == user_id)
destroy_user_sessions user_id (some except_id) =
    if except_id == ""
    then delete_sessions (λ s. s.user_id == user_id)
    else delete_sessions (λ s. s.user_id == user_id && not (s.id == except_id))

abbrev is_active : UserStatus → Bool
is_active UserStatus.active = true
is_active UserStatus.disabled = false

-- A session row with its user and role, which the foreign keys provide.
pub record SessionRecord : Type 0 where
  pub row : SessionRow
  pub user : UserRow
  pub role : RoleRow

abbrev with_role : SessionRow → UserRow → Option RoleRow → Option SessionRecord
with_role row user none = none
with_role row user (some role) = some (record { row = row; user = user; role = role })

abbrev with_user : Database → SessionRow → Option UserRow → Option SessionRecord
with_user db row none = none
with_user db row (some user) = with_role row user (find_role user.role_id db)

abbrev with_row : Database → Option SessionRow → Option SessionRecord
with_row db none = none
with_row db (some row) = with_user db row (find_user row.user_id db)

unfoldable pub find_session_record : String → Database → Option SessionRecord
find_session_record token_hash db = with_row db (find_session token_hash db)

-- the rest of `getSessionFromToken`, once the record is loaded
check_record : Option SessionRecord → ℕ → Server → Option AuthSession × Server
check_record none now server = (none, server)
check_record (some found) now server =
    if ltb found.row.expires_at now
    then (none, record server { db = delete_sessions (λ s. s.id == found.row.id) server.db })
    else if not (is_active found.user.status)
    then (
      none,
      record server { db = delete_sessions (λ s. s.user_id == found.row.user_id) server.db },
    )
    else (
      some (record {
        id = found.row.id;
        user = to_session_user found.user found.role;
        expires_at = found.row.expires_at;
      }),
      server,
    )

load_session :
    (sha256 new_id : String → String) → Option String → ℕ → Server → Option AuthSession × Server
load_session sha256 new_id none now server = (none, server)
load_session sha256 new_id (some token) now server =
    let ready = ensure_system_roles new_id server in
    check_record (find_session_record (sha256 token) ready.db) now ready

unfoldable pub get_session_from_token :
    (sha256 new_id : String → String) → Option String → ℕ → Server → Option AuthSession × Server
unfolding load_session check_record
get_session_from_token sha256 new_id token now server =
    load_session sha256 new_id (truthy token) now server

unfoldable pub assert_host_access : SessionUser → String → Result (Unit {0})
assert_host_access user host_id =
    if not (can_access_host (scope_of user) host_id)
    then err (forbidden "You are not allowed to access this host")
    else ok tt

abbrev not_found_message : Kind → String
not_found_message vm = "VM not found"
not_found_message lxc = "Container not found"

unfoldable pub assert_guest_access : SessionUser → String → Kind → ℕ → Result (Unit {0})
assert_guest_access user host_id kind vmid =
    if not (can_access_guest (scope_of user) host_id kind vmid)
    then err (not_found (not_found_message kind))
    else ok tt

unfoldable pub session_cookie_max_age_seconds : (expires_at now : ℕ) → ℕ
session_cookie_max_age_seconds expires_at now = (expires_at - now) / 1000
