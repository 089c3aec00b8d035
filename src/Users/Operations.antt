-- ===== src/Users/Operations.antt =====
-- The operations of the service as data, and runs of several of them.
use proxora.Common.{String, List, [], ◌∷◌}
use proxora.Database.{Database}
use proxora.Users.Accounts.{CreateUserInput, UpdateUserInput, create_user, update_user, delete_user}
use proxora.Users.Roles.{CreateRoleInput, UpdateRoleInput, create_role, update_role, delete_role}

pub data Operation : Type 0 where
  creating_user : String → CreateUserInput → Operation
  updating_user : String → UpdateUserInput → Operation
  deleting_user : (id actor_id : String) → Operation
  creating_role : String → CreateRoleInput → Operation
  updating_role : String → UpdateRoleInput → Operation
  deleting_role : String → Operation

-- The database after an operation, whether it succeeds or fails.
unfoldable pub after : (hash_password : String → String) → Operation → Database → Database
after hash_password (creating_user new_id input) db = (create_user hash_password new_id input db).1
after hash_password (updating_user id input) db = (update_user hash_password id input db).1
after hash_password (deleting_user id actor_id) db = (delete_user id actor_id db).1
after hash_password (creating_role new_id input) db = (create_role new_id input db).1
after hash_password (updating_role id input) db = (update_role id input db).1
after hash_password (deleting_role id) db = (delete_role id db).1

unfoldable pub after_all : (hash_password : String → String) → List Operation → Database → Database
after_all hash_password [] db = db
after_all hash_password (operation ∷ operations) db =
    after_all hash_password operations (after hash_password operation db)
