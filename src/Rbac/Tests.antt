-- ===== src/Rbac/Tests.antt =====
-- Runs of the permission checks, and the theorems at concrete users.
use proxora.Common.{
  String, List, [], ◌∷◌, true, false, none, some, ◌≡◌, refl, arith, includes, add, add_all, unique,
  lookup, string_eq, decimal, ◌&&◌, ◌||◌, ◌==◌,
}
use text.Mathlib.TextEquality.{eq_iff}
use proxora.Kind.{vm, lxc, kind_name}
use proxora.Rbac.Catalog.{permissions, permission_catalog, legacy_permission_aliases}
use proxora.Rbac.Grants.{expand_permissions, is_permission, sanitize_permissions, has_permission}
use proxora.Rbac.Guests.{
  is_host_scoped_permission, is_guest_action_permission, guest_grant_catalog,
  normalize_guest_permissions, files_only_guest_permissions, guest_file_permission, view_permission,
  files_read_permission, files_write_permission,
}
use proxora.Rbac.Guests.Laws.{
  guest_ids, includes-normalize_guest_permissions, normalize_guest_permissions_bounds,
}
use proxora.Rbac.Holder.{
  GuestPermissionRef, PermissionHolder, guest_permission_key, override_at, user_has_permission,
  some_override_permits,
}
use proxora.Rbac.Holder.Isolation.{user_has_permission_isolated}
use proxora.Rbac.Holder.Hostless.{user_has_permission_hostless}
use proxora.Rbac.Presets.{administrator_permissions, permission_for_guest_action}
use proxora.Rbac.Presets.Laws.{administrator-reserved}

running : Unit {0}
unfolding expand_permissions is_permission sanitize_permissions has_permission permissions
    permission_catalog legacy_permission_aliases is_host_scoped_permission
    is_guest_action_permission guest_grant_catalog normalize_guest_permissions
    files_only_guest_permissions guest_file_permission guest_ids guest_permission_key override_at
    user_has_permission some_override_permits administrator_permissions permission_for_guest_action
    includes add add_all unique lookup decimal kind_name
running = tt

sanitize_legacy :
    sanitize_permissions ("vm.files" ∷ "nonsense" ∷ "hosts.view" ∷ "vm.files.read" ∷ [])
    ≡ "hosts.view" ∷ "vm.files.read" ∷ "vm.files.write" ∷ []
unfolding running
sanitize_legacy = refl

normalize_write :
    normalize_guest_permissions lxc ("lxc.files.write" ∷ "vm.start" ∷ "users.view" ∷ [])
    ≡ "lxc.view" ∷ "lxc.files.read" ∷ "lxc.files.write" ∷ []
unfolding running
normalize_write = refl

files_only : files_only_guest_permissions vm ≡ "vm.view" ∷ "vm.files.read" ∷ "vm.files.write" ∷ []
unfolding running
files_only = refl

abbrev web : GuestPermissionRef
web = record { host_id = "pve1"; kind = vm; vmid = 104 }

web_key : guest_permission_key web ≡ "pve1:vm:104"
unfolding running
web_key = refl

-- Starts machines by role; on pve2 only looks; may do nothing but read files of machine 104.
abbrev ann : PermissionHolder
ann = record {
  role = some ("vm.view" ∷ "vm.stop" ∷ "vm.start" ∷ []);
  host_permissions = some (("pve1", none) ∷ ("pve2", some ("vm.view" ∷ [])) ∷ []);
  guest_permissions = some (("pve1:vm:104", some ("vm.files.read" ∷ [])) ∷ []);
}

ann_checks :
    (user_has_permission ann "vm.start" (some "pve1") none ≡ true)
    × (user_has_permission ann "vm.start" (some "pve2") none ≡ false)
    × (user_has_permission ann "vm.start" (some "pve1") (some web) ≡ false)
    × (user_has_permission ann "vm.files.read" (some "pve1") (some web) ≡ true)
    × (user_has_permission ann "vm.files.read" none none ≡ true)
    × (user_has_permission ann "vm.reset" (some "pve3") none ≡ true)
unfolding running
ann_checks = (refl, refl, refl, refl, refl, refl)

-- The same account with a grant on a host that the next theorem is not about.
abbrev ann_elsewhere : PermissionHolder
ann_elsewhere = record {
  role = ann.role;
  host_permissions =
      some
        (("pve3", some ("vm.delete" ∷ [])) ∷ ("pve1", none) ∷ ("pve2", some ("vm.view" ∷ [])) ∷ []);
  guest_permissions = ann.guest_permissions;
}

user_has_permission_isolated_example :
    (user_has_permission ann "vm.delete" (some "pve2") none
      ≡ user_has_permission ann_elsewhere "vm.delete" (some "pve2") none)
    × (user_has_permission ann "vm.delete" (some "pve2") (some web)
        ≡ user_has_permission ann_elsewhere "vm.delete" (some "pve2") (some web))
unfolding override_at lookup
user_has_permission_isolated_example =
    user_has_permission_isolated ann ann_elsewhere "vm.delete" "pve2" web
      (ground (arith, eq_iff "pve2" "")) refl refl refl

abbrev root : PermissionHolder
root = record {
  role = some permissions;
  host_permissions = none;
  guest_permissions = ann.guest_permissions;
}

user_has_permission_hostless_example : user_has_permission ann "vm.files.read" none none ≡ true
unfolding running
user_has_permission_hostless_example =
    user_has_permission_hostless ann "vm.files.read" (some "pve1") (some web) refl

abbrev administrator : PermissionHolder
administrator = record {
  role = some administrator_permissions;
  host_permissions = some (("pve1", some ("users.manage" ∷ "proxora.update" ∷ [])) ∷ []);
  guest_permissions = none;
}

administrator-reserved_example :
    user_has_permission administrator "users.delete" (some "pve1") none ≡ false
unfolding running
administrator-reserved_example =
    administrator-reserved administrator "users.delete" (some "pve1") none refl refl refl

abbrev writer : List String
writer = "lxc.files.write" ∷ "vm.start" ∷ []

includes-normalize_guest_permissions_example :
    includes (normalize_guest_permissions lxc writer) "lxc.files.read" ≡ (
      includes (guest_ids lxc) "lxc.files.read"
      && (has_permission (some writer) "lxc.files.read"
          || view_permission lxc == "lxc.files.read"
          || files_read_permission lxc == "lxc.files.read"
            && has_permission (some writer) (files_write_permission lxc)))
includes-normalize_guest_permissions_example =
    includes-normalize_guest_permissions lxc writer "lxc.files.read"

normalize_guest_permissions_bounds_example :
    has_permission (some (normalize_guest_permissions lxc writer)) (view_permission lxc) ≡ true
normalize_guest_permissions_bounds_example = (normalize_guest_permissions_bounds lxc writer).1
