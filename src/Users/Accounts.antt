-- ===== src/Users/Accounts.antt =====
-- The operations on users.
pub mod Steps
pub mod Isolation
pub mod SignOut
pub mod Rows
pub mod Asked
pub mod Written
pub mod Clash
use proxora.Common.{
  String, List, [], ◌∷◌, ◌++◌, Bool, true, false, not, Option, none, some, map, any, filter,
  string_eq, ◌&&◌, ◌||◌, ◌==◌, if◌then◌else◌,
}
use proxora.Errors.{AppError, not_found, validation, conflict}
use proxora.Rbac.Holder.{truthy}
use proxora.Scope.{HostAccessGrant, GuestAccessGrant}
use proxora.Database.{
  Database, UserRow, RoleRow, UserStatus, find_user, find_role, find_first, delete_sessions,
}
use proxora.Database.Run.{Failure, thrown, query, Outcome, done, Run, and_then, found, require}
use proxora.Session.{destroy_user_sessions}
use proxora.Users.{
  GuestGrantInput, HostGrantInput, UserDto, with_scope, guest_rows_from_input, host_rows_from_input,
  distinct_hosts, distinct_guests, is_given,
}

pub record CreateUserInput : Type 0 where
  pub username : String
  pub email : String
  pub password : String
  pub role_id : String
  pub host_ids : Option (List String)
  pub hosts : Option (List HostGrantInput)
  pub guests : Option (List GuestGrantInput)

pub record UpdateUserInput : Type 0 where
  pub email : Option String
  pub password : Option String
  pub role_id : Option String
  pub status : Option UserStatus
  pub host_ids : Option (List String)
  pub hosts : Option (List HostGrantInput)
  pub guests : Option (List GuestGrantInput)

abbrev or_no_guests : Option (List GuestGrantInput) → List GuestGrantInput
or_no_guests none = []
or_no_guests (some guests) = guests

-- `include: { role: true, ... }` and `withScope`, on a user that was just read or written
abbrev shown : UserRow → Database → Run UserDto
shown user db =
    and_then (found (find_role user.role_id db) query db)
      (λ role db. (done (with_scope user role), db))

abbrev is_active_or_none : Option UserStatus → Bool
is_active_or_none none = true
is_active_or_none (some UserStatus.active) = true
is_active_or_none (some UserStatus.disabled) = false

-- A column that is written where the field is given.
abbrev pub written {ℓ} : {A : Type ℓ} → A → Option A → A
written old none = old
written old (some new) = new

-- The rows of one user that fit, with a change.
unfoldable pub set_user : String → (UserRow → UserRow) → Database → Database
set_user id change db = record db { users = map (λ u. if u.id == id then change u else u) db.users }

-- `userHostAccess.deleteMany` and `createMany`: where the rows clash only the first has an effect.
pub write_hosts : String → List HostAccessGrant → Database → Run (Unit {0})
unfolding set_user
write_hosts id rows db =
    let cleared = set_user id (λ u. record u { host_access = [] }) db in
    and_then (require (distinct_hosts rows) query cleared)
      (λ _ db. (done tt, set_user id (λ u. record u { host_access = rows }) db))

-- the same for `userGuestAccess`
pub write_guests : String → List GuestAccessGrant → Database → Run (Unit {0})
unfolding set_user
write_guests id rows db =
    let cleared = set_user id (λ u. record u { guest_access = [] }) db in
    and_then (require (distinct_guests rows) query cleared)
      (λ _ db. (done tt, set_user id (λ u. record u { guest_access = rows }) db))

pub update_hosts : String → UpdateUserInput → Database → Run (Unit {0})
unfolding write_hosts
update_hosts id input db =
    if is_given input.hosts || is_given input.host_ids
    then write_hosts id (host_rows_from_input input.hosts input.host_ids) db
    else (done tt, db)

pub update_guests : String → Option (List GuestGrantInput) → Database → Run (Unit {0})
unfolding write_guests
update_guests id none db = (done tt, db)
update_guests id (some guests) db = write_guests id (guest_rows_from_input guests) db

-- what `updateUser` does after the sessions
pub update_access : String → UpdateUserInput → Database → Run UserDto
unfolding update_hosts update_guests
update_access id input db = and_then (update_hosts id input db) (λ _ db.
    and_then (update_guests id input.guests db)
      (λ _ db. and_then (found (find_user id db) query db) shown))

-- `input.password || input.status === "DISABLED"`
abbrev pub ends_sessions : UpdateUserInput → Bool
ends_sessions input = is_given (truthy input.password) || not (is_active_or_none input.status)

unfoldable pub signed_out : String → UpdateUserInput → Database → Database
signed_out id input db = if ends_sessions input then destroy_user_sessions id none db else db

module _ (hash_password : String → String) where
  unfoldable pub new_user : String → CreateUserInput → UserRow
  new_user new_id input = record {
    id = new_id;
    username = input.username;
    email = input.email;
    password_hash = hash_password input.password;
    status = UserStatus.active;
    role_id = input.role_id;
    host_access = host_rows_from_input input.hosts input.host_ids;
    guest_access = guest_rows_from_input (or_no_guests input.guests);
    totp_enabled = false;
    totp_secret = none;
    totp_recovery_hashes = [];
  }

  -- The user and its rows are created at once.
  unfoldable pub create_user : String → CreateUserInput → Database → Run UserDto
  unfolding new_user
  create_user new_id input db =
      let user = new_user new_id input in
      and_then
        (require
          (not (
            is_given
              (find_first (λ u. u.username == input.username || u.email == input.email) db.users)))
          (thrown (conflict "Username or email already exists")) db)
        (λ _ db.
          and_then (found (find_role input.role_id db) (thrown (validation "Role not found")) db)
            (λ role db.
              and_then
                (require (distinct_hosts user.host_access && distinct_guests user.guest_access)
                  query db)
                (λ _ db.
                  (done (with_scope user role), record db { users = db.users ++ user ∷ [] }))))

  unfoldable pub hashed : Option String → Option String
  hashed none = none
  hashed (some password) = some (hash_password password)

  unfoldable pub columns : UpdateUserInput → UserRow → UserRow
  unfolding hashed
  columns input user = record user {
    email = written user.email (truthy input.email);
    role_id = written user.role_id (truthy input.role_id);
    status = written user.status input.status;
    password_hash = written user.password_hash (hashed (truthy input.password));
  }

  -- Emails are unique, and a user has a role.
  pub update_columns : String → UpdateUserInput → UserRow → Database → Run (Unit {0})
  unfolding set_user columns
  update_columns id input user db =
      let new = columns input user in
      and_then
        (require
          (not (any (λ u. u.email == new.email && not (u.id == id)) db.users)
            && is_given (find_role new.role_id db))
          query db)
        (λ _ db. (done tt, set_user id (columns input) db))

  unfoldable pub update_user : String → UpdateUserInput → Database → Run UserDto
  unfolding update_columns signed_out update_access
  update_user id input db =
      and_then (found (find_user id db) (thrown (not_found "User not found")) db) (λ user db.
        and_then (update_columns id input user db)
          (λ _ db. update_access id input (signed_out id input db)))

-- Sessions and access rows of a user go with the user.
unfoldable pub delete_user : (id actor_id : String) → Database → Run (Unit {0})
delete_user id actor_id db =
    and_then
      (require (not (id == actor_id)) (thrown (validation "You cannot delete your own account")) db)
      (λ _ db. and_then (found (find_user id db) (thrown (not_found "User not found")) db) (λ _ db.
        (
          done tt,
          delete_sessions (λ s. s.user_id == id)
              (record db { users = filter (λ u. not (u.id == id)) db.users }),
        )))
