-- ===== src/Users/Consistency.antt =====
-- Each operation keeps the relations between users, roles and sessions.
use proxora.Common.{
  String, List, [], ◌∷◌, Bool, true, Option, none, some, ◌≡◌, refl, All-filter, string_eq,
  Bool-cases, inl, inr, sym, ◌∙◌, All-mono,
}
use proxora.Rbac.Holder.{truthy}
use proxora.Database.{Database, UserRow, SessionRow, delete_sessions}
use proxora.Database.Run.{and_then, found-keeps, require-keeps}
use proxora.Session.{destroy_user_sessions}
use proxora.Users.Accounts.Steps.{update_access-keeps, update_columns-cases}
use proxora.Users.Accounts.{
  CreateUserInput, UpdateUserInput, set_user, new_user, columns, signed_out, ends_sessions,
  create_user, update_user, delete_user, written,
}
use proxora.Users.Roles.{
  CreateRoleInput, UpdateRoleInput, set_role, updated_role, create_role, update_role, delete_role,
}
use proxora.Users.Operations.{
  Operation, creating_user, updating_user, deleting_user, creating_role, updating_role,
  deleting_role, after, after_all,
}
use proxora.Users.Relations.{
  has, HasRole, IsConsistent, has-find_first, has-change, has-snoc, All-change, All-snoc, same_role,
  delete_user-sessions, delete_role-users,
}

set_user-IsConsistent :
    (id : String) (change : UserRow → UserRow) (db : Database)
    → ((u : UserRow) → (change u).id ≡ u.id)
    → ((u : UserRow) → HasRole db u → HasRole db (change u))
    → IsConsistent db
    → IsConsistent (set_user id change db)
unfolding IsConsistent set_user
set_user-IsConsistent id change db same good h = (
  All-change db id change db.users good h.0,
  All-mono _ _ db.sessions (λ s m. has-change (λ u. u.id) id s.user_id change db.users same ∙ m)
      h.1,
)

delete_sessions-IsConsistent :
    (p : SessionRow → Bool) (db : Database) → IsConsistent db → IsConsistent (delete_sessions p db)
unfolding IsConsistent delete_sessions
delete_sessions-IsConsistent p db h = (h.0, All-filter _ _ db.sessions h.1)

signed_out-IsConsistent :
    (id : String) (input : UpdateUserInput) (db : Database)
    → IsConsistent db
    → IsConsistent (signed_out id input db)
unfolding signed_out destroy_user_sessions
signed_out-IsConsistent id input db h = elim (Bool-cases (ends_sessions input)) [
  | inl ends ↦ rw ends (delete_sessions-IsConsistent _ db h)
  | inr stays ↦ rw stays h
]

-- Each user that gets a new role gets one and the same.
columns-HasRole :
    (hash_password : String → String) (input : UpdateUserInput) (user : UserRow) (db : Database)
    → HasRole db (columns hash_password input user)
    → (u : UserRow) → HasRole db u
    → HasRole db (columns hash_password input u)
unfolding columns
columns-HasRole hash_password input user db given u own = go (truthy input.role_id) given
  where
    go :
        (role_id : Option String)
        → has (λ r. r.id) (written user.role_id role_id) db.roles ≡ true
        → has (λ r. r.id) (written u.role_id role_id) db.roles ≡ true
    go none g = own
    go (some role_id) g = g

update_user-IsConsistent :
    (hash_password : String → String) (id : String) (input : UpdateUserInput) (db : Database)
    → IsConsistent db
    → IsConsistent (update_user hash_password id input db).1
unfolding update_user and_then
update_user-IsConsistent hash_password id input db h = found-keeps IsConsistent _ _ _ _ h (λ user _.
    elim (update_columns-cases hash_password id input user db) [
      | inl refused ↦ rw refused h
      | inr passed ↦
          let role_is =
            sym (has-find_first (λ r. r.id) (columns hash_password input user).role_id db.roles)
            ∙ passed.0 in
          let written_db =
            set_user-IsConsistent id (columns hash_password input) db (λ u. refl)
              (columns-HasRole hash_password input user db role_is) h in
          rw passed.1 (
            update_access-keeps IsConsistent id
              (λ change now same k.
                set_user-IsConsistent id change now (λ u. (same u).0)
                  (λ u r. same_role _ u.role_id now (same u).1 r) k)
              input _ (signed_out-IsConsistent id input _ written_db))
    ])

create_user-IsConsistent :
    (hash_password : String → String) (new_id : String) (input : CreateUserInput) (db : Database)
    → IsConsistent db
    → IsConsistent (create_user hash_password new_id input db).1
unfolding create_user IsConsistent new_user
create_user-IsConsistent hash_password new_id input db h =
    require-keeps IsConsistent _ _ _ _ h (λ _. found-keeps IsConsistent _ _ _ _ h (λ role is_role.
      require-keeps IsConsistent _ _ _ _ h (λ _. (
        All-snoc _ db.users _ h.0
            (sym (has-find_first (λ r. r.id) input.role_id db.roles) ∙ rw is_role refl),
        All-mono _ _ db.sessions (λ s m. has-snoc (λ u. u.id) s.user_id db.users _ m) h.1,
      ))))

delete_user-IsConsistent :
    (id actor_id : String) (db : Database)
    → IsConsistent db
    → IsConsistent (delete_user id actor_id db).1
unfolding delete_user IsConsistent delete_sessions
delete_user-IsConsistent id actor_id db h = require-keeps IsConsistent _ _ _ _ h (λ _.
    found-keeps IsConsistent _ _ _ _ h
      (λ _ _. (All-filter _ _ db.users h.0, delete_user-sessions id db.users db.sessions h.1)))

create_role-IsConsistent :
    (new_id : String) (input : CreateRoleInput) (db : Database)
    → IsConsistent db
    → IsConsistent (create_role new_id input db).1
unfolding create_role IsConsistent
create_role-IsConsistent new_id input db h =
    require-keeps IsConsistent _ _ _ _ h
      (λ _. (All-mono _ _ db.users (λ u m. has-snoc (λ r. r.id) u.role_id db.roles _ m) h.0, h.1))

update_role-IsConsistent :
    (id : String) (input : UpdateRoleInput) (db : Database)
    → IsConsistent db
    → IsConsistent (update_role id input db).1
unfolding update_role IsConsistent set_role updated_role
update_role-IsConsistent id input db h = found-keeps IsConsistent _ _ _ _ h (λ role _.
    require-keeps IsConsistent _ _ _ _ h (λ _. (
      All-mono _ _ db.users
          (λ u m. has-change (λ r. r.id) id u.role_id (updated_role input) db.roles (λ r. refl) ∙ m)
          h.0,
      h.1,
    )))

delete_role-IsConsistent :
    (id : String) (db : Database) → IsConsistent db → IsConsistent (delete_role id db).1
unfolding delete_role IsConsistent
delete_role-IsConsistent id db h = found-keeps IsConsistent _ _ _ _ h (λ role _.
    require-keeps IsConsistent _ _ _ _ h (λ _.
      require-keeps IsConsistent _ _ _ _ h
        (λ unused. (delete_role-users id db.roles db.users unused h.0, h.1))))

after-IsConsistent :
    (hash_password : String → String) (operation : Operation) (db : Database)
    → IsConsistent db
    → IsConsistent (after hash_password operation db)
unfolding after
after-IsConsistent hash_password (creating_user new_id input) db h =
    create_user-IsConsistent hash_password new_id input db h
after-IsConsistent hash_password (updating_user id input) db h =
    update_user-IsConsistent hash_password id input db h
after-IsConsistent hash_password (deleting_user id actor_id) db h =
    delete_user-IsConsistent id actor_id db h
after-IsConsistent hash_password (creating_role new_id input) db h =
    create_role-IsConsistent new_id input db h
after-IsConsistent hash_password (updating_role id input) db h =
    update_role-IsConsistent id input db h
after-IsConsistent hash_password (deleting_role id) db h = delete_role-IsConsistent id db h

-- Each user keeps a role and each session a user through any sequence of creations, updates and
-- deletions of users and roles, whether they succeed or fail.
pub after_all-IsConsistent :
    (hash_password : String → String) (operations : List Operation) (db : Database)
    → IsConsistent db
    → IsConsistent (after_all hash_password operations db)
unfolding after_all
after_all-IsConsistent hash_password [] db h = h
after_all-IsConsistent hash_password (operation ∷ operations) db h =
    after_all-IsConsistent hash_password operations (after hash_password operation db)
      (after-IsConsistent hash_password operation db h)
