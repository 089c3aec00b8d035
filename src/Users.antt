-- ===== src/Users.antt =====
-- server/services/user-service.ts: users with their grants, and roles. The schemas of the request
-- bodies are checked before. Hashes of passwords and the ids of new rows come from outside. A query
-- fails where prisma/schema.prisma has a unique column, a primary key or a relation against it; hosts
-- are taken to exist.
pub mod Accounts
pub mod Roles
pub mod Relations
pub mod Operations
pub mod Consistency
pub mod Grants
pub mod SystemRoles
mod Tests
use proxora.Common.{
  String, List, [], ◌∷◌, ◌++◌, Bool, true, false, not, Option, none, some, map, any, string_eq,
  ◌&&◌, ◌||◌, ◌==◌, nat_eq, ℕ, if◌then◌else◌,
}
use proxora.Kind.{Kind, kind_name}
use proxora.Rbac.Grants.{sanitize_permissions}
use proxora.Rbac.Guests.{normalize_guest_permissions}
use proxora.Scope.{HostAccessGrant, GuestAccessGrant, GuestScope, parse_guest_kind, or_empty}
use proxora.Database.{Database, UserRow, RoleRow, UserStatus}

-- `permissions` is null or undefined where it is `none`.
pub record GuestGrantInput : Type 0 where
  pub host_id : String
  pub kind : Kind
  pub vmid : ℕ
  pub permissions : Option (List String)

pub record HostGrantInput : Type 0 where
  pub host_id : String
  pub permissions : Option (List String)

pub record HostGrantDto : Type 0 where
  pub host_id : String
  pub permissions : Option (List String)

pub record GuestGrant : Type 0 where
  pub host_id : String
  pub kind : Kind
  pub vmid : ℕ
  pub permissions : Option (List String)

abbrev to_guest_grant : GuestAccessGrant → Option Kind → List GuestGrant
to_guest_grant g none = []
to_guest_grant g (some kind) =
    record {
      host_id = g.host_id;
      kind = kind;
      vmid = g.vmid;
      permissions =
          if g.override then some (sanitize_permissions (or_empty g.permissions)) else none;
    }
    ∷ []

unfoldable pub to_guest_grants : List GuestAccessGrant → List GuestGrant
to_guest_grants [] = []
to_guest_grants (g ∷ rows) = to_guest_grant g (parse_guest_kind g.kind) ++ to_guest_grants rows

abbrev pub is_given {ℓ} : {A : Type ℓ} → Option A → Bool
is_given none = false
is_given (some a) = true

-- `permissions ? normalize(permissions) : []`
abbrev pub given_permissions : (List String → List String) → Option (List String) → List String
given_permissions normalize none = []
given_permissions normalize (some granted) = normalize granted

unfoldable pub guest_rows_from_input : List GuestGrantInput → List GuestAccessGrant
guest_rows_from_input guests =
    map
      (λ g. record {
        host_id = g.host_id;
        kind = kind_name g.kind;
        vmid = g.vmid;
        override = is_given g.permissions;
        permissions = some (given_permissions (normalize_guest_permissions g.kind) g.permissions);
      })
      guests

unfoldable pub to_host_grants : List HostAccessGrant → List HostGrantDto
to_host_grants rows =
    map
      (λ h. record {
        host_id = h.host_id;
        permissions =
            if h.override then some (sanitize_permissions (or_empty h.permissions)) else none;
      })
      rows

unfoldable pub host_row : HostGrantInput → HostAccessGrant
host_row h = record {
  host_id = h.host_id;
  override = is_given h.permissions;
  permissions = some (given_permissions sanitize_permissions h.permissions);
}

unfoldable pub plain_host_row : String → HostAccessGrant
plain_host_row host_id = record { host_id = host_id; override = false; permissions = some [] }

-- An empty list of hosts gives way to the ids of hosts.
unfoldable pub host_rows_from_input :
    Option (List HostGrantInput) → Option (List String) → List HostAccessGrant
unfolding host_row plain_host_row
host_rows_from_input (some (h ∷ hosts)) host_ids = map host_row (h ∷ hosts)
host_rows_from_input (some []) none = []
host_rows_from_input (some []) (some host_ids) = map plain_host_row host_ids
host_rows_from_input none none = []
host_rows_from_input none (some host_ids) = map plain_host_row host_ids

-- A user as the API shows it: `UserRow` without the hash of the password and the sealed secret, with the
-- role and the grants in it.
pub record UserDto : Type 0 where
  pub id : String
  pub username : String
  pub email : String
  pub status : UserStatus
  pub role_id : String
  pub totp_enabled : Bool
  pub totp_recovery_hashes : List String
  pub role : RoleRow
  pub host_access : List HostAccessGrant
  pub guest_access : List GuestAccessGrant
  pub host_ids : List String
  pub hosts : List HostGrantDto
  pub guests : List GuestGrant

unfoldable pub with_scope : UserRow → RoleRow → UserDto
with_scope user role =
    let hosts = to_host_grants user.host_access in
    record {
      id = user.id;
      username = user.username;
      email = user.email;
      status = user.status;
      role_id = user.role_id;
      totp_enabled = user.totp_enabled;
      totp_recovery_hashes = user.totp_recovery_hashes;
      role = role;
      host_access = user.host_access;
      guest_access = user.guest_access;
      host_ids = map (λ h. h.host_id) hosts;
      hosts = hosts;
      guests = to_guest_grants user.guest_access;
    }

-- Whether no two rows have one key.
unfoldable pub distinct {ℓ} : {A : Type ℓ} → (A → A → Bool) → List A → Bool
distinct same [] = true
distinct same (x ∷ xs) = not (any (same x) xs) && distinct same xs

-- `@@id([userId, hostId])` among the rows of one user
abbrev pub distinct_hosts : List HostAccessGrant → Bool
distinct_hosts rows = distinct (λ a b. a.host_id == b.host_id) rows

-- `@@id([userId, hostId, kind, vmid])` among the rows of one user
abbrev pub distinct_guests : List GuestAccessGrant → Bool
distinct_guests rows =
    distinct (λ a b. a.host_id == b.host_id && a.kind == b.kind && a.vmid == b.vmid) rows
