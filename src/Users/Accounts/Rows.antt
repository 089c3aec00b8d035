-- ===== src/Users/Accounts/Rows.antt =====
-- The rows that the steps of an update write.
use proxora.Common.{
  String, List, [], ◌∷◌, Bool, true, false, not, Option, none, some, ◌≡◌, refl, arith, map, any,
  string_eq, ◌==◌, ◌||◌, ◌&&◌, if◌then◌else◌, Bool-cases, inl, inr, subst, sym,
}
use proxora.Scope.{HostAccessGrant, GuestAccessGrant}
use proxora.Database.{Database, UserRow, RoleRow, find_user, find_role, find_first, delete_sessions}
use proxora.Database.Run.{done, Run, and_then, found, require}
use proxora.Session.{destroy_user_sessions}
use proxora.Users.{
  GuestGrantInput, is_given, with_scope, host_rows_from_input, guest_rows_from_input,
  distinct_hosts, distinct_guests,
}
use proxora.Users.Accounts.{
  UpdateUserInput, set_user, write_hosts, write_guests, update_hosts, update_guests, update_access,
  columns, update_columns, signed_out, ends_sessions, update_user,
}

pub find_first-changed :
    (id : String) (change : UserRow → UserRow) (users : List UserRow) (user : UserRow)
    → ((u : UserRow) → (change u).id ≡ u.id)
    → find_first (λ u. u.id == id) users ≡ some user
    → find_first (λ u. u.id == id) (map (λ u. if u.id == id then change u else u) users)
      ≡ some (change user)
unfolding find_first
find_first-changed id change [] user same h = cc
find_first-changed id change (u ∷ users) user same h = elim (Bool-cases (u.id == id)) [
  | inl t ↦
      let is_user : u ≡ user = ground arith in
      let still : ((change u).id == id) ≡ true = subst (λ k. (k == id) ≡ true) (sym (same u)) t in
      rw t (rw still ((subst (λ v. some (change u) ≡ some (change v)) is_user refl)))
  | inr f ↦ rw f (rw f (find_first-changed id change users user same (rw f at h)))
]

-- Whether the input gives hosts, and the row with the hosts it gives.
abbrev pub gives_hosts : UpdateUserInput → Bool
gives_hosts input = is_given input.hosts || is_given input.host_ids

abbrev pub hosts_written : UpdateUserInput → List HostAccessGrant → List HostAccessGrant
hosts_written input old =
    if gives_hosts input then host_rows_from_input input.hosts input.host_ids else old

abbrev pub guests_written :
    Option (List GuestGrantInput) → List GuestAccessGrant → List GuestAccessGrant
guests_written none old = old
guests_written (some guests) old = guest_rows_from_input guests

-- A step that ends in a database in which the user has the row.
abbrev Ends : String → Database → Run (Unit {0}) → UserRow → Type 0
Ends id db r user =
    (after : Database) × (r ≡ (done tt, after))
    × (find_user id after ≡ some user)
    × (after.roles ≡ db.roles)

write_hosts-Ends :
    (id : String) (rows : List HostAccessGrant) (db : Database) (user : UserRow)
    → find_user id db ≡ some user
    → distinct_hosts rows ≡ true
    → Ends id db (write_hosts id rows db) (record user { host_access = rows })
unfolding write_hosts set_user and_then require
write_hosts-Ends id rows db user h fine =
    let cleared =
      find_first-changed id (λ u. record u { host_access = [] }) db.users user (λ u. refl) h in
    rw fine (
      _,
      refl,
      find_first-changed id (λ u. record u { host_access = rows }) _ _ (λ u. refl) cleared,
      refl,
    )

write_guests-Ends :
    (id : String) (rows : List GuestAccessGrant) (db : Database) (user : UserRow)
    → find_user id db ≡ some user
    → distinct_guests rows ≡ true
    → Ends id db (write_guests id rows db) (record user { guest_access = rows })
unfolding write_guests set_user and_then require
write_guests-Ends id rows db user h fine =
    let cleared =
      find_first-changed id (λ u. record u { guest_access = [] }) db.users user (λ u. refl) h in
    rw fine (
      _,
      refl,
      find_first-changed id (λ u. record u { guest_access = rows }) _ _ (λ u. refl) cleared,
      refl,
    )

update_hosts-Ends :
    (id : String) (input : UpdateUserInput) (db : Database) (user : UserRow)
    → find_user id db ≡ some user
    → distinct_hosts (host_rows_from_input input.hosts input.host_ids) ≡ true
    → Ends id db
        (update_hosts id input db)
        (record user { host_access = hosts_written input user.host_access })
unfolding update_hosts
update_hosts-Ends id input db user h fine = elim (Bool-cases (gives_hosts input)) [
  | inl given ↦ rw given (write_hosts-Ends id _ db user h fine)
  | inr absent ↦ rw absent (db, refl, h, refl)
]

abbrev pub rows_of : Option (List GuestGrantInput) → List GuestAccessGrant
rows_of none = []
rows_of (some guests) = guest_rows_from_input guests

update_guests-Ends :
    (id : String) (guests : Option (List GuestGrantInput)) (db : Database) (user : UserRow)
    → find_user id db ≡ some user
    → distinct_guests (rows_of guests) ≡ true
    → Ends id db
        (update_guests id guests db)
        (record user { guest_access = guests_written guests user.guest_access })
unfolding update_guests
update_guests-Ends id none db user h fine = (db, refl, h, refl)
update_guests-Ends id (some guests) db user h fine = write_guests-Ends id _ db user h fine

pub signed_out-found :
    (id : String) (input : UpdateUserInput) (db : Database) (user : UserRow)
    → find_user id db ≡ some user
    → (find_user id (signed_out id input db) ≡ some user)
      × ((signed_out id input db).roles ≡ db.roles)
unfolding signed_out destroy_user_sessions delete_sessions
signed_out-found id input db user h = elim (Bool-cases (ends_sessions input)) [
  | inl ends ↦ rw ends (h, refl)
  | inr stays ↦ rw stays (h, refl)
]

update_access-updated :
    (id : String) (input : UpdateUserInput) (db : Database) (user : UserRow) (role : RoleRow)
    → find_user id db ≡ some user
    → find_role user.role_id db ≡ some role
    → distinct_hosts (host_rows_from_input input.hosts input.host_ids) ≡ true
    → distinct_guests (rows_of input.guests) ≡ true
    → ((update_access id input db).0
        ≡ done (
            with_scope
              (record user {
                host_access = hosts_written input user.host_access;
                guest_access = guests_written input.guests user.guest_access;
              })
              role))
      × (find_user id (update_access id input db).1
          ≡ some (record user {
            host_access = hosts_written input user.host_access;
            guest_access = guests_written input.guests user.guest_access;
          }))
unfolding update_access and_then found
update_access-updated id input db user role h is_role hosts guests =
    let c = update_hosts-Ends id input db user h hosts in
    let d = update_guests-Ends id input.guests c.0 _ c.2 guests in
    rw c.1 (rw d.1 (rw d.2 (rw d.3 (rw c.3 (rw is_role (refl, d.2))))))

-- The row of the user after the update.
unfoldable pub updated_user : (String → String) → UpdateUserInput → UserRow → UserRow
updated_user hash_password input user = record (columns hash_password input user) {
  host_access = hosts_written input user.host_access;
  guest_access = guests_written input.guests user.guest_access;
}

-- What an update that meets no obstacle does, in terms of its steps.
pub update_user-steps :
    (hash_password : String → String) (id : String) (input : UpdateUserInput) (db : Database)
    (user : UserRow) (role : RoleRow)
    → find_user id db ≡ some user
    → any (λ u. u.email == (columns hash_password input user).email && not (u.id == id)) db.users
      ≡ false
    → find_role (columns hash_password input user).role_id db ≡ some role
    → distinct_hosts (host_rows_from_input input.hosts input.host_ids) ≡ true
    → distinct_guests (rows_of input.guests) ≡ true
    → ((update_user hash_password id input db).0
        ≡ done (with_scope (updated_user hash_password input user) role))
      × (find_user id (update_user hash_password id input db).1
          ≡ some (updated_user hash_password input user))
unfolding update_user update_columns and_then found require set_user updated_user
update_user-steps hash_password id input db user role h email is_role hosts guests =
    let a = find_first-changed id (columns hash_password input) db.users user (λ u. refl) h in
    let after_columns = set_user id (columns hash_password input) db in
    let b = signed_out-found id input after_columns (columns hash_password input user) a in
    let granted =
      subst
        (λ roles.
          find_first (λ r. r.id == (columns hash_password input user).role_id) roles ≡ some role)
        (sym b.1) is_role in
    rw h (
      rw email (
        rw is_role (
          update_access-updated id input (signed_out id input after_columns)
            (columns hash_password input user) role b.0 granted hosts guests)))
