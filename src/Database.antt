-- ===== src/Database.antt =====
-- prisma/schema.prisma: the tables that authentication reads and writes, and the queries on them.
-- A table is the list of its rows. Columns that no modelled code reads are left out. The rows of
-- UserHostAccess and UserGuestAccess stand in the user that owns them.
pub mod Laws
pub mod Run
use proxora.Common.{
  ℕ, String, Codes, List, [], ◌∷◌, Bool, true, false, not, Option, none, some, filter, string_eq,
  ◌==◌, if◌then◌else◌,
}
use proxora.Scope.{HostAccessGrant, GuestAccessGrant}

pub data UserStatus : Type 0 where
  active disabled : UserStatus

pub record RoleRow : Type 0 where
  pub id : String
  pub slug : String
  pub name : String
  pub description : String
  pub is_system : Bool
  pub permissions : List String

pub record UserRow : Type 0 where
  pub id : String
  pub username : String
  pub email : String
  pub password_hash : String
  pub status : UserStatus
  pub role_id : String
  pub host_access : List HostAccessGrant
  pub guest_access : List GuestAccessGrant
  pub totp_enabled : Bool
  pub totp_secret : Option Codes
  pub totp_recovery_hashes : List String

-- Times are milliseconds since the epoch.
pub record SessionRow : Type 0 where
  pub id : String
  pub user_id : String
  pub token_hash : String
  pub ip : Option String
  pub user_agent : Option String
  pub expires_at : ℕ

pub record Database : Type 0 where
  pub users : List UserRow
  pub roles : List RoleRow
  pub sessions : List SessionRow

-- `findUnique`: the first row that fits.
unfoldable pub find_first {ℓ} : {A : Type ℓ} → (A → Bool) → List A → Option A
find_first p [] = none
find_first p (x ∷ xs) = if p x then some x else find_first p xs

abbrev pub find_user : String → Database → Option UserRow
find_user id db = find_first (λ u. u.id == id) db.users

abbrev pub find_role : String → Database → Option RoleRow
find_role id db = find_first (λ r. r.id == id) db.roles

abbrev pub find_session : String → Database → Option SessionRow
find_session token_hash db = find_first (λ s. s.token_hash == token_hash) db.sessions

-- `session.deleteMany({ where })`, and `delete` where the test is on the id
unfoldable pub delete_sessions : (SessionRow → Bool) → Database → Database
delete_sessions p db = record db { sessions = filter (λ s. not (p s)) db.sessions }
