-- ===== src/Rbac/Guests.antt =====
-- lib/permissions.ts: which permissions attach to a host or to a guest, and the permissions that a
-- user can be given on one guest.
pub mod Laws
use proxora.Common.{
  String, List, [], ◌∷◌, Bool, true, false, not, Option, none, some, map, any, filter, includes,
  add, string_eq, unique, ◌||◌, ◌&&◌, ◌==◌, ◌⧺◌, if◌then◌else◌,
}
use proxora.Kind.{Kind, vm, lxc, kind_name}
use text.Mathlib.Text.{starts_with}
use proxora.Rbac.Catalog.{
  Permission, permissions, permission_catalog, PermissionMeta, PermissionGroupId,
}
use proxora.Rbac.Grants.{has_permission, sanitize_permissions}

-- `HOST_SCOPED_GROUP_IDS.has(group)`
abbrev in_host_scoped_group_ids : PermissionGroupId → Bool
in_host_scoped_group_ids PermissionGroupId.access = false
in_host_scoped_group_ids PermissionGroupId.system = false
in_host_scoped_group_ids _ = true

-- `PERMISSION_CATALOG.find((p) => p.id === id)`
find_meta : Permission → List PermissionMeta → Option PermissionMeta
find_meta id [] = none
find_meta id (p ∷ catalog) = if p.id == id then some p else find_meta id catalog

abbrev meta_is_host_scoped : Option PermissionMeta → Bool
meta_is_host_scoped none = false
meta_is_host_scoped (some meta) = in_host_scoped_group_ids meta.group

unfoldable pub is_host_scoped_permission : Permission → Bool
unfolding find_meta
is_host_scoped_permission id =
    if id == "hosts.create" || id == "proxora.update"
    then false
    else if id == "tasks.view" || id == "tasks.cancel"
    then true
    else meta_is_host_scoped (find_meta id permission_catalog)

unfoldable pub host_grant_catalog : List PermissionMeta
host_grant_catalog = filter (λ p. is_host_scoped_permission p.id) permission_catalog

unfoldable pub host_scoped_from_role : Option (List String) → List Permission
host_scoped_from_role granted = filter (has_permission granted) (map (λ p. p.id) host_grant_catalog)

unfoldable pub is_guest_action_permission : Permission → Bool
is_guest_action_permission id =
    if id == "vm.create" || id == "lxc.create"
    then false
    else starts_with id "vm." || starts_with id "lxc."

-- `p.group === kind`
abbrev group_is : Kind → PermissionGroupId → Bool
group_is vm PermissionGroupId.vm = true
group_is lxc PermissionGroupId.lxc = true
group_is _ _ = false

unfoldable pub guest_grant_catalog : Kind → List PermissionMeta
guest_grant_catalog kind =
    filter (λ p. group_is kind p.group && is_guest_action_permission p.id) permission_catalog

unfoldable pub guest_scoped_from_role : Kind → Option (List String) → List Permission
guest_scoped_from_role kind granted =
    filter (has_permission granted) (map (λ p. p.id) (guest_grant_catalog kind))

abbrev pub view_permission : Kind → Permission
view_permission vm = "vm.view"
view_permission lxc = "lxc.view"

abbrev pub files_read_permission : Kind → Permission
files_read_permission vm = "vm.files.read"
files_read_permission lxc = "lxc.files.read"

abbrev pub files_write_permission : Kind → Permission
files_write_permission vm = "vm.files.write"
files_write_permission lxc = "lxc.files.write"

-- the last test of `normalizeGuestPermissions`: to write files is to read them
add_files_read : Kind → List Permission → List Permission
add_files_read kind out =
    if includes out (files_write_permission kind) then add out (files_read_permission kind) else out

unfoldable pub normalize_guest_permissions : Kind → List String → List Permission
unfolding add_files_read
normalize_guest_permissions kind granted =
    let allowed = unique (map (λ p. p.id) (guest_grant_catalog kind)) in
    let chosen = unique (filter (includes allowed) (sanitize_permissions granted)) in
    let out = add_files_read kind (add chosen (view_permission kind)) in
    filter (includes out) permissions

unfoldable pub files_only_guest_permissions : Kind → List Permission
files_only_guest_permissions kind = normalize_guest_permissions kind (
    (kind_name kind ⧺ ".view")
    ∷ (kind_name kind ⧺ ".files.read")
    ∷ (kind_name kind ⧺ ".files.write")
    ∷ [])

pub data FileAccess : Type 0 where
  read write : FileAccess

abbrev access_name : FileAccess → String
access_name read = "read"
access_name write = "write"

unfoldable pub guest_file_permission : Kind → FileAccess → Permission
guest_file_permission kind access = kind_name kind ⧺ ".files." ⧺ access_name access
