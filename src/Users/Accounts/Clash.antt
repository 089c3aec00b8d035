-- ===== src/Users/Accounts/Clash.antt =====
-- An update that gives a host twice: the old rows are deleted before the new ones are refused.
use proxora.Common.{String, [], true, false, not, some, ◌≡◌, refl, any, string_eq, ◌==◌, ◌&&◌, ◌∙◌}
use proxora.Rbac.Grants.{has_permission}
use proxora.Scope.{can_access_host, guests_of}
use proxora.Database.{Database, UserRow, RoleRow, find_user, find_role}
use proxora.Database.Run.{failed, query, and_then, found, require}
use proxora.Session.{to_session_user, scope_of}
use proxora.Session.User.{to_session_user-can_access_host}
use proxora.Users.{distinct_hosts, host_rows_from_input}
use proxora.Users.Accounts.Rows.{find_first-changed, gives_hosts, signed_out-found}
use proxora.Users.Accounts.{
  UpdateUserInput, set_user, write_hosts, update_hosts, update_access, columns, update_columns,
  signed_out, update_user,
}

update_access-clash :
    (id : String) (input : UpdateUserInput) (db : Database) (user : UserRow)
    → find_user id db ≡ some user
    → gives_hosts input ≡ true
    → distinct_hosts (host_rows_from_input input.hosts input.host_ids) ≡ false
    → ((update_access id input db).0 ≡ failed query)
      × (find_user id (update_access id input db).1 ≡ some (record user { host_access = [] }))
unfolding update_access update_hosts write_hosts and_then require set_user
update_access-clash id input db user h given clash = rw given (
    rw clash (
      refl,
      find_first-changed id (λ u. record u { host_access = [] }) db.users user (λ u. refl) h,
    ))

-- The row after such an update, for a user without rows for guests.
abbrev pub stripped : (String → String) → UpdateUserInput → UserRow → UserRow
stripped hash_password input user = record (columns hash_password input user) { host_access = [] }

-- An update that gives a host twice fails, but leaves the user without any row for a host; if there are
-- no rows for guests either and the role may see hosts, the user may then access every host.
pub update_user-clash :
    (hash_password : String → String) (id : String) (input : UpdateUserInput) (db : Database)
    (user : UserRow) (role : RoleRow)
    → find_user id db ≡ some user
    → any (λ u. u.email == (columns hash_password input user).email && not (u.id == id)) db.users
      ≡ false
    → find_role (columns hash_password input user).role_id db ≡ some role
    → gives_hosts input ≡ true
    → distinct_hosts (host_rows_from_input input.hosts input.host_ids) ≡ false
    → guests_of user.guest_access ≡ []
    → has_permission (some role.permissions) "hosts.view" ≡ true
    → ((update_user hash_password id input db).0 ≡ failed query)
      × (find_user id (update_user hash_password id input db).1
          ≡ some (stripped hash_password input user))
      × ((host_id : String)
          → can_access_host
              (scope_of (to_session_user (stripped hash_password input user) role))
              host_id
            ≡ true)
unfolding update_user update_columns and_then found require set_user columns
update_user-clash hash_password id input db user role h email is_role given clash no_guests view =
    let a = find_first-changed id (columns hash_password input) db.users user (λ u. refl) h in
    let after_columns = set_user id (columns hash_password input) db in
    let b = signed_out-found id input after_columns (columns hash_password input user) a in
    let c =
      update_access-clash id input (signed_out id input after_columns)
        (columns hash_password input user) b.0 given clash in
    rw h (
      rw email (
        rw is_role (
          c.0,
          c.1,
          λ host_id.
              to_session_user-can_access_host (stripped hash_password input user) role host_id
              ∙ rw no_guests (rw view refl),
        )))
