-- ===== src/Users/Accounts/Written.antt =====
-- What `updateUser` stores and returns, written out from the fields of the request.
use proxora.Common.{
  String, List, [], true, false, not, Option, none, some, ◌≡◌, refl, arith, map, any, ap, ◌∙◌,
  string_eq, ◌==◌, ◌&&◌, if◌then◌else◌, subst, sym,
}
use proxora.Database.{Database, UserRow, RoleRow, UserStatus, find_user, find_role}
use proxora.Database.Run.{done}
use proxora.Users.{
  HostGrantDto, UserDto, with_scope, to_host_grants, to_guest_grants, distinct_hosts,
  distinct_guests,
}
use proxora.Users.Grants.{normalized_grant}
use proxora.Rbac.Holder.{truthy}
use proxora.Users.Accounts.{UpdateUserInput, columns, written, hashed, update_user}
use proxora.Users.Accounts.Asked.{
  granting_host, granting_guest, asked_hosts, asked_or, hosts_asked, guests_asked, hosts_given,
  guests_given,
}
use proxora.Users.Accounts.Rows.{updated_user, update_user-steps}

-- A text that is given and not empty, or the old one.
abbrev pub new_text : String → Option String → String
new_text old none = old
new_text old (some s) = if s == "" then old else s

abbrev pub new_hash : (String → String) → String → Option String → String
new_hash hash_password old none = old
new_hash hash_password old (some password) = if password == "" then old else hash_password password

abbrev pub new_status : UserStatus → Option UserStatus → UserStatus
new_status old none = old
new_status old (some status) = status

abbrev pub row_after : (String → String) → UpdateUserInput → UserRow → UserRow
row_after hash_password input user = record {
  id = user.id;
  username = user.username;
  email = new_text user.email input.email;
  password_hash = new_hash hash_password user.password_hash input.password;
  status = new_status user.status input.status;
  role_id = new_text user.role_id input.role_id;
  host_access =
      asked_or (map granting_host) user.host_access (asked_hosts input.hosts input.host_ids);
  guest_access =
      asked_or (λ guests. map granting_guest (map normalized_grant guests)) user.guest_access
        input.guests;
  totp_enabled = user.totp_enabled;
  totp_secret = user.totp_secret;
  totp_recovery_hashes = user.totp_recovery_hashes;
}

-- The hosts and guests that are shown after a request: those it asks for, or those of the old rows.
abbrev pub hosts_after : UpdateUserInput → UserRow → List HostGrantDto
hosts_after input user =
    asked_or (λ hosts. hosts) (to_host_grants user.host_access)
      (asked_hosts input.hosts input.host_ids)

abbrev pub shown_after : (String → String) → UpdateUserInput → UserRow → RoleRow → UserDto
shown_after hash_password input user role =
    let row = row_after hash_password input user in
    record {
      id = user.id;
      username = user.username;
      email = row.email;
      status = row.status;
      role_id = row.role_id;
      totp_enabled = user.totp_enabled;
      totp_recovery_hashes = user.totp_recovery_hashes;
      role = role;
      host_access = row.host_access;
      guest_access = row.guest_access;
      host_ids = map (λ h. h.host_id) (hosts_after input user);
      hosts = hosts_after input user;
      guests = asked_or (map normalized_grant) (to_guest_grants user.guest_access) input.guests;
    }

text_written : (old : String) (o : Option String) → written old (truthy o) ≡ new_text old o
text_written old none = refl
text_written old (some s) = ground arith

hash_written :
    (hash_password : String → String) (old : String) (o : Option String)
    → written old (hashed hash_password (truthy o)) ≡ new_hash hash_password old o
unfolding hashed
hash_written hash_password old none = refl
hash_written hash_password old (some s) = ground arith

status_written : (old : UserStatus) (o : Option UserStatus) → written old o ≡ new_status old o
status_written old none = refl
status_written old (some status) = refl

-- The row that the steps write is the one that the request asks for.
updated_user-row_after :
    (hash_password : String → String) (input : UpdateUserInput) (user : UserRow)
    → updated_user hash_password input user ≡ row_after hash_password input user
unfolding updated_user columns
updated_user-row_after hash_password input user = rw (text_written user.email input.email) (
    rw (text_written user.role_id input.role_id) (
      rw (hash_written hash_password user.password_hash input.password) (
        rw (status_written user.status input.status) (
          rw (hosts_asked input.hosts input.host_ids user.host_access).0
            (rw (guests_asked input.guests user.guest_access).0 refl)))))

with_scope-shown_after :
    (hash_password : String → String) (input : UpdateUserInput) (user : UserRow) (role : RoleRow)
    → with_scope (updated_user hash_password input user) role
      ≡ shown_after hash_password input user role
unfolding updated_user columns with_scope
with_scope-shown_after hash_password input user role =
    rw (hosts_asked input.hosts input.host_ids user.host_access).1 (
      rw (guests_asked input.guests user.guest_access).1 (
        rw (text_written user.email input.email) (
          rw (text_written user.role_id input.role_id) (
            rw (status_written user.status input.status) (
              rw (hosts_asked input.hosts input.host_ids user.host_access).0
                (rw (guests_asked input.guests user.guest_access).0 refl))))))

email_same :
    (hash_password : String → String) (input : UpdateUserInput) (user : UserRow)
    (users : List UserRow) (id : String)
    → any (λ u. u.email == new_text user.email input.email && not (u.id == id)) users ≡ false
    → any (λ u. u.email == (columns hash_password input user).email && not (u.id == id)) users
      ≡ false
unfolding columns
email_same hash_password input user users id h =
    subst (λ email. any (λ u. u.email == email && not (u.id == id)) users ≡ false)
      (sym (text_written user.email input.email)) h

role_same :
    (hash_password : String → String) (input : UpdateUserInput) (user : UserRow) (db : Database)
    (role : RoleRow)
    → find_role (new_text user.role_id input.role_id) db ≡ some role
    → find_role (columns hash_password input user).role_id db ≡ some role
unfolding columns
role_same hash_password input user db role h =
    subst (λ role_id. find_role role_id db ≡ some role)
      (sym (text_written user.role_id input.role_id)) h

-- An update returns what it wrote if the user exists, the new email is no other user's, the new role
-- exists, and no host and no guest is given twice. Email, role and password are replaced where they are
-- given and not empty, the status where it is given. Where the request gives a list of hosts or of host
-- ids the hosts are replaced, and where it gives a list of guests these, with sanitised and normalised
-- permissions. All else of the user stays. The answer shows the new row, without the hash of the password
-- and the sealed secret, with the role and the grants.
pub update_user-updated :
    (hash_password : String → String) (id : String) (input : UpdateUserInput) (db : Database)
    (user : UserRow) (role : RoleRow)
    → find_user id db ≡ some user
    → any (λ u. u.email == new_text user.email input.email && not (u.id == id)) db.users ≡ false
    → find_role (new_text user.role_id input.role_id) db ≡ some role
    → distinct_hosts (asked_or (map granting_host) [] (asked_hosts input.hosts input.host_ids))
      ≡ true
    → distinct_guests
        (asked_or (λ guests. map granting_guest (map normalized_grant guests)) [] input.guests)
      ≡ true
    → ((update_user hash_password id input db).0 ≡ done (shown_after hash_password input user role))
      × (find_user id (update_user hash_password id input db).1
          ≡ some (row_after hash_password input user))
update_user-updated hash_password id input db user role h email is_role hosts guests =
    let steps =
      update_user-steps hash_password id input db user role h
        (email_same hash_password input user db.users id email)
        (role_same hash_password input user db role is_role)
        (subst (λ rows. distinct_hosts rows ≡ true) (hosts_given input.hosts input.host_ids) hosts)
        (subst (λ rows. distinct_guests rows ≡ true) (guests_given input.guests) guests) in
    (
      steps.0 ∙ ap done (with_scope-shown_after hash_password input user role),
      steps.1 ∙ ap some (updated_user-row_after hash_password input user),
    )
