-- ===== src/Users/Roles.antt =====
-- The operations on roles.
use proxora.Common.{
  String, List, [], ◌∷◌, ◌++◌, Bool, false, not, Option, none, some, map, any, filter, string_eq,
  ◌&&◌, ◌==◌, if◌then◌else◌,
}
use proxora.Errors.{not_found, validation}
use proxora.Rbac.Grants.{sanitize_permissions}
use proxora.Database.{Database, RoleRow, find_role}
use proxora.Database.Run.{thrown, query, done, Run, and_then, found, require}
use proxora.Rbac.Holder.{truthy}

pub record CreateRoleInput : Type 0 where
  pub name : String
  pub slug : String
  pub description : Option String
  pub permissions : List String

-- `Partial<CreateRoleInput>`
pub record UpdateRoleInput : Type 0 where
  pub name : Option String
  pub slug : Option String
  pub description : Option String
  pub permissions : Option (List String)

-- `value ?? fallback`, and a column that an update leaves alone
abbrev pub or_else {ℓ} : {A : Type ℓ} → A → Option A → A
or_else fallback none = fallback
or_else fallback (some a) = a

-- `role.isSystem && input.slug && input.slug !== role.slug`
abbrev renames : Option String → RoleRow → Bool
renames none role = false
renames (some slug) role = not (slug == role.slug)

abbrev sanitized : Option (List String) → Option (List String)
sanitized none = none
sanitized (some granted) = some (sanitize_permissions granted)

unfoldable pub new_role : String → CreateRoleInput → RoleRow
new_role new_id input = record {
  id = new_id;
  slug = input.slug;
  name = input.name;
  description = or_else "" input.description;
  is_system = false;
  permissions = sanitize_permissions input.permissions;
}

-- Slugs are unique.
unfoldable pub create_role : String → CreateRoleInput → Database → Run RoleRow
unfolding new_role
create_role new_id input db =
    and_then (require (not (any (λ r. r.slug == input.slug) db.roles)) query db) (λ _ db.
      (done (new_role new_id input), record db { roles = db.roles ++ new_role new_id input ∷ [] }))

unfoldable pub updated_role : UpdateRoleInput → RoleRow → RoleRow
updated_role input role = record role {
  name = or_else role.name input.name;
  description = or_else role.description input.description;
  permissions = or_else role.permissions (sanitized input.permissions);
}

unfoldable pub set_role : String → (RoleRow → RoleRow) → Database → Database
set_role id change db = record db { roles = map (λ r. if r.id == id then change r else r) db.roles }

unfoldable pub update_role : String → UpdateRoleInput → Database → Run RoleRow
unfolding set_role updated_role
update_role id input db =
    and_then (found (find_role id db) (thrown (not_found "Role not found")) db) (λ role db.
      and_then
        (require (not (role.is_system && renames (truthy input.slug) role))
          (thrown (validation "System roles cannot be renamed")) db)
        (λ _ db. (done (updated_role input role), set_role id (updated_role input) db)))

unfoldable pub delete_role : String → Database → Run (Unit {0})
delete_role id db =
    and_then (found (find_role id db) (thrown (not_found "Role not found")) db) (λ role db.
      and_then
        (require (not role.is_system) (thrown (validation "System roles cannot be deleted")) db)
        (λ _ db.
          and_then
            (require (not (any (λ u. u.role_id == id) db.users))
              (thrown (validation "Role is still assigned to users")) db)
            (λ _ db. (done tt, record db { roles = filter (λ r. not (r.id == id)) db.roles }))))
