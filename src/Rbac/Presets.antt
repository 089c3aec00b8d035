-- ===== src/Rbac/Presets.antt =====
-- lib/permissions.ts: the roles that the program ships, and the permission that each action needs.
pub mod Laws
use text.Mathlib.Text.{starts_with}
use proxora.Common.{
  String, List, [], ◌∷◌, Bool, true, false, not, filter, string_eq, ◌||◌, ◌&&◌, ◌==◌, ◌⧺◌,
  if◌then◌else◌,
}
use proxora.Kind.{Kind, kind_name}
use proxora.Rbac.Catalog.{Permission, permissions}

unfoldable pub inventory_view_permissions : List Permission
inventory_view_permissions = "hosts.view" ∷ "vm.view" ∷ "lxc.view" ∷ []

unfoldable pub nothing_permissions : List Permission
nothing_permissions =
    "vm.view" ∷ "vm.start" ∷ "vm.shutdown" ∷ "vm.force-stop" ∷ "vm.reboot" ∷ "vm.console"
    ∷ "vm.files.read" ∷ "vm.files.write" ∷ "lxc.view" ∷ "lxc.start" ∷ "lxc.shutdown"
    ∷ "lxc.force-stop" ∷ "lxc.reboot" ∷ "lxc.console" ∷ "lxc.files.read" ∷ "lxc.files.write" ∷ []

unfoldable pub administrator_permissions : List Permission
administrator_permissions =
    filter
      (λ p.
        not (starts_with p "users.")
        && not (starts_with p "roles.")
        && not (p == "settings.update")
        && not (p == "proxora.update")
        && not (starts_with p "notifications."))
      permissions

unfoldable pub operator_permissions : List Permission
operator_permissions =
    "hosts.view" ∷ "hosts.console" ∷ "vm.view" ∷ "vm.start" ∷ "vm.shutdown" ∷ "vm.force-stop"
    ∷ "vm.reboot" ∷ "vm.console" ∷ "vm.files.read" ∷ "vm.files.write" ∷ "lxc.view" ∷ "lxc.start"
    ∷ "lxc.shutdown" ∷ "lxc.force-stop" ∷ "lxc.reboot" ∷ "lxc.console" ∷ "lxc.files.read"
    ∷ "lxc.files.write" ∷ "storage.view" ∷ "zfs.view" ∷ "backup.view" ∷ "tasks.view"
    ∷ "tasks.cancel" ∷ "updates.view" ∷ []

unfoldable pub viewer_permissions : List Permission
viewer_permissions =
    "hosts.view" ∷ "vm.view" ∷ "lxc.view" ∷ "storage.view" ∷ "zfs.view" ∷ "backup.view"
    ∷ "tasks.view" ∷ "updates.view" ∷ "audit.view" ∷ "settings.view" ∷ "notifications.view" ∷ []

pub record RolePreset : Type 0 where
  pub name : String
  pub description : String
  pub permissions : List Permission

-- Entries of `ROLE_PRESETS` in the order of `Object.entries`.
unfoldable pub role_presets : List (String × RolePreset)
role_presets =
    (
      "super-admin",
      record {
        name = "Super Admin";
        description = "Full access to every feature, host and setting.";
        permissions = permissions;
      },
    )
    ∷ (
      "administrator",
      record {
        name = "Administrator";
        description = "Manage hosts, virtual machines, storage and updates.";
        permissions = administrator_permissions;
      },
    )
    ∷ (
      "operator",
      record {
        name = "Operator";
        description = "Start, stop and open consoles for VMs and containers.";
        permissions = operator_permissions;
      },
    )
    ∷ (
      "viewer",
      record {
        name = "Viewer";
        description = "Read-only access to hosts and guests.";
        permissions = viewer_permissions;
      },
    )
    ∷ (
      "nothing",
      record {
        name = "Nothing";
        description =
            "Only the VMs and containers assigned to the user. No host inventory, storage, or backups.";
        permissions = nothing_permissions;
      },
    )
    ∷ []

unfoldable pub permission_for_guest_action : Kind → String → Permission
permission_for_guest_action kind action =
    let prefix = kind_name kind in
    if action == "start" || action == "sendkey" || action == "nudge-cd-boot"
    then prefix ⧺ ".start"
    else if action == "stop"
    then prefix ⧺ ".force-stop"
    else if action == "shutdown"
    then prefix ⧺ ".shutdown"
    else if action == "reboot"
    then prefix ⧺ ".reboot"
    else if action == "reset"
    then "vm.reset"
    else if action == "pause"
    then "vm.pause"
    else if action == "resume"
    then "vm.resume"
    else if action == "delete"
    then prefix ⧺ ".delete"
    else if action == "clone"
    then prefix ⧺ ".clone"
    else if action == "migrate"
    then prefix ⧺ ".migrate"
    else if action == "snapshot"
    then prefix ⧺ ".snapshot.create"
    else if action == "snapshot-delete"
    then prefix ⧺ ".snapshot.delete"
    else if action == "snapshot-rollback"
    then prefix ⧺ ".snapshot.rollback"
    else if action == "config" || action == "resize"
    then prefix ⧺ ".config"
    else prefix ⧺ ".view"

unfoldable pub backup_permission_for_action : String → Permission
backup_permission_for_action action =
    if action == "create-job"
    then "backup.job.create"
    else if action == "update-job"
    then "backup.job.update"
    else if action == "delete-job"
    then "backup.job.delete"
    else if action == "run" || action == "run-job"
    then "backup.run"
    else if action == "restore"
    then "backup.restore"
    else if action == "delete-file" || action == "cleanup-orphans"
    then "backup.delete"
    else "backup.view"
