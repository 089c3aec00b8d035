-- ===== src/Rbac/Catalog.antt =====
-- lib/permissions.ts: the permissions, their groups, the catalogue with its labels, and the legacy
-- names. A permission is its string, as in the source. JSON objects keyed by strings are association
-- lists; a key that names a member of `Object.prototype` is outside the model.
use proxora.Common.{String, List, [], ◌∷◌}

abbrev pub Permission : Type 0
Permission = String

unfoldable pub permissions : List Permission
permissions =
    "hosts.view" ∷ "hosts.create" ∷ "hosts.update" ∷ "hosts.credentials" ∷ "hosts.delete"
    ∷ "hosts.reboot" ∷ "hosts.shutdown" ∷ "hosts.console" ∷ "vm.view" ∷ "vm.create" ∷ "vm.config"
    ∷ "vm.delete" ∷ "vm.start" ∷ "vm.shutdown" ∷ "vm.force-stop" ∷ "vm.reboot" ∷ "vm.reset"
    ∷ "vm.pause" ∷ "vm.resume" ∷ "vm.console" ∷ "vm.files.read" ∷ "vm.files.write"
    ∷ "vm.snapshot.create" ∷ "vm.snapshot.delete" ∷ "vm.snapshot.rollback" ∷ "vm.clone"
    ∷ "vm.migrate" ∷ "lxc.view" ∷ "lxc.create" ∷ "lxc.config" ∷ "lxc.delete" ∷ "lxc.start"
    ∷ "lxc.shutdown" ∷ "lxc.force-stop" ∷ "lxc.reboot" ∷ "lxc.console" ∷ "lxc.files.read"
    ∷ "lxc.files.write" ∷ "lxc.snapshot.create" ∷ "lxc.snapshot.delete" ∷ "lxc.snapshot.rollback"
    ∷ "lxc.clone" ∷ "lxc.migrate" ∷ "storage.view" ∷ "storage.delete" ∷ "zfs.view" ∷ "backup.view"
    ∷ "backup.run" ∷ "backup.restore" ∷ "backup.delete" ∷ "backup.job.create" ∷ "backup.job.update"
    ∷ "backup.job.delete" ∷ "updates.view" ∷ "updates.check" ∷ "updates.upgrade" ∷ "proxora.update"
    ∷ "users.view" ∷ "users.create" ∷ "users.update" ∷ "users.delete" ∷ "roles.view"
    ∷ "roles.create" ∷ "roles.update" ∷ "roles.delete" ∷ "audit.view" ∷ "tasks.view"
    ∷ "tasks.cancel" ∷ "settings.view" ∷ "settings.update" ∷ "peers.manage" ∷ "notifications.view"
    ∷ "notifications.create" ∷ "notifications.update" ∷ "notifications.delete" ∷ []

pub data PermissionGroupId : Type 0 where
  hosts vm lxc storage backup updates access system : PermissionGroupId

pub record PermissionMeta : Type 0 where
  pub id : Permission
  pub group : PermissionGroupId
  pub de : String
  pub en : String

abbrev meta : Permission → PermissionGroupId → String → String → PermissionMeta
meta id group de en = record { id = id; group = group; de = de; en = en }

unfoldable pub permission_catalog : List PermissionMeta
permission_catalog =
    meta "hosts.view" hosts "Hosts ansehen" "View hosts"
    ∷ meta "hosts.create" hosts "Host hinzufügen" "Add host"
    ∷ meta "hosts.update" hosts "Host-Daten ändern (Name, URL, Notizen)"
        "Edit host details (name, URL, notes)"
    ∷ meta "hosts.credentials" hosts "Host-Zugangsdaten ändern" "Change host credentials"
    ∷ meta "hosts.delete" hosts "Host entfernen" "Remove host"
    ∷ meta "hosts.reboot" hosts "Host neu starten" "Reboot host"
    ∷ meta "hosts.shutdown" hosts "Host herunterfahren" "Shut down host"
    ∷ meta "hosts.console" hosts "Host-Konsole" "Host console"
    ∷ meta "vm.view" vm "VMs ansehen" "View VMs"
    ∷ meta "vm.create" vm "VM erstellen" "Create VM"
    ∷ meta "vm.config" vm "VM-Konfiguration ändern" "Edit VM config"
    ∷ meta "vm.delete" vm "VM löschen" "Delete VM"
    ∷ meta "vm.start" vm "VM starten" "Start VM"
    ∷ meta "vm.shutdown" vm "VM herunterfahren (ACPI)" "Shut down VM (ACPI)"
    ∷ meta "vm.force-stop" vm "VM hart stoppen" "Force stop VM"
    ∷ meta "vm.reboot" vm "VM neu starten" "Reboot VM"
    ∷ meta "vm.reset" vm "VM Reset (Strom)" "Hard-reset VM"
    ∷ meta "vm.pause" vm "VM pausieren" "Pause VM"
    ∷ meta "vm.resume" vm "VM fortsetzen" "Resume VM"
    ∷ meta "vm.console" vm "VM-Konsole" "VM console"
    ∷ meta "vm.files.read" vm "VM-Dateien lesen / herunterladen" "Read / download VM files"
    ∷ meta "vm.files.write" vm "VM-Dateien schreiben / hochladen" "Write / upload VM files"
    ∷ meta "vm.snapshot.create" vm "VM-Snapshot erstellen" "Create VM snapshot"
    ∷ meta "vm.snapshot.delete" vm "VM-Snapshot löschen" "Delete VM snapshot"
    ∷ meta "vm.snapshot.rollback" vm "VM-Snapshot wiederherstellen" "Roll back VM snapshot"
    ∷ meta "vm.clone" vm "VM klonen" "Clone VM"
    ∷ meta "vm.migrate" vm "VM migrieren" "Migrate VM"
    ∷ meta "lxc.view" lxc "Container ansehen" "View containers"
    ∷ meta "lxc.create" lxc "Container erstellen" "Create container"
    ∷ meta "lxc.config" lxc "Container-Konfiguration ändern" "Edit container config"
    ∷ meta "lxc.delete" lxc "Container löschen" "Delete container"
    ∷ meta "lxc.start" lxc "Container starten" "Start container"
    ∷ meta "lxc.shutdown" lxc "Container herunterfahren" "Shut down container"
    ∷ meta "lxc.force-stop" lxc "Container hart stoppen" "Force stop container"
    ∷ meta "lxc.reboot" lxc "Container neu starten" "Reboot container"
    ∷ meta "lxc.console" lxc "Container-Konsole" "Container console"
    ∷ meta "lxc.files.read" lxc "Container-Dateien lesen / herunterladen"
        "Read / download container files"
    ∷ meta "lxc.files.write" lxc "Container-Dateien schreiben / hochladen"
        "Write / upload container files"
    ∷ meta "lxc.snapshot.create" lxc "Container-Snapshot erstellen" "Create container snapshot"
    ∷ meta "lxc.snapshot.delete" lxc "Container-Snapshot löschen" "Delete container snapshot"
    ∷ meta "lxc.snapshot.rollback" lxc "Container-Snapshot wiederherstellen"
        "Roll back container snapshot"
    ∷ meta "lxc.clone" lxc "Container klonen" "Clone container"
    ∷ meta "lxc.migrate" lxc "Container migrieren" "Migrate container"
    ∷ meta "storage.view" storage "Storage ansehen" "View storage"
    ∷ meta "storage.delete" storage "Storage-Dateien löschen" "Delete storage files"
    ∷ meta "zfs.view" storage "ZFS ansehen" "View ZFS"
    ∷ meta "backup.view" backup "Backups ansehen" "View backups"
    ∷ meta "backup.run" backup "Backup starten" "Run backup"
    ∷ meta "backup.restore" backup "Backup einspielen" "Restore backup"
    ∷ meta "backup.delete" backup "Backup-Datei löschen" "Delete backup file"
    ∷ meta "backup.job.create" backup "Backup-Job anlegen" "Create backup job"
    ∷ meta "backup.job.update" backup "Backup-Job ändern" "Edit backup job"
    ∷ meta "backup.job.delete" backup "Backup-Job löschen" "Delete backup job"
    ∷ meta "updates.view" updates "Host-Updates ansehen" "View host updates"
    ∷ meta "updates.check" updates "Host-Updates prüfen" "Refresh host updates"
    ∷ meta "updates.upgrade" updates "Host-Updates einspielen" "Apply host updates"
    ∷ meta "proxora.update" updates "Proxora selbst aktualisieren" "Update Proxora itself"
    ∷ meta "users.view" access "Benutzer ansehen" "View users"
    ∷ meta "users.create" access "Benutzer anlegen" "Create users"
    ∷ meta "users.update" access "Benutzer ändern (Rolle, Scope)" "Edit users (role, scope)"
    ∷ meta "users.delete" access "Benutzer löschen" "Delete users"
    ∷ meta "roles.view" access "Rollen ansehen" "View roles"
    ∷ meta "roles.create" access "Rollen anlegen" "Create roles"
    ∷ meta "roles.update" access "Rollen ändern" "Edit roles"
    ∷ meta "roles.delete" access "Rollen löschen" "Delete roles"
    ∷ meta "audit.view" system "Audit-Log ansehen" "View audit log"
    ∷ meta "tasks.view" system "Tasks ansehen" "View tasks"
    ∷ meta "tasks.cancel" system "Laufende Tasks abbrechen" "Cancel running tasks"
    ∷ meta "settings.view" system "Einstellungen ansehen" "View settings"
    ∷ meta "settings.update" system "Einstellungen ändern" "Change settings"
    ∷ meta "peers.manage" system "WireGuard und Host-Freigaben" "WireGuard and host sharing"
    ∷ meta "notifications.view" system "Webhooks ansehen" "View webhook channels"
    ∷ meta "notifications.create" system "Webhook anlegen" "Create webhook channel"
    ∷ meta "notifications.update" system "Webhook ändern" "Edit webhook channel"
    ∷ meta "notifications.delete" system "Webhook löschen" "Delete webhook channel"
    ∷ []

unfoldable pub legacy_permission_aliases : List (String × List Permission)
legacy_permission_aliases =
    ("hosts.edit", "hosts.update" ∷ "hosts.credentials" ∷ [])
    ∷ ("vm.edit", "vm.config" ∷ [])
    ∷ ("vm.files", "vm.files.read" ∷ "vm.files.write" ∷ [])
    ∷ (
      "vm.stop",
      "vm.force-stop" ∷ "vm.shutdown" ∷ "vm.reboot" ∷ "vm.reset" ∷ "vm.pause" ∷ "vm.resume" ∷ [],
    )
    ∷ ("vm.snapshot", "vm.snapshot.create" ∷ "vm.snapshot.delete" ∷ "vm.snapshot.rollback" ∷ [])
    ∷ ("lxc.edit", "lxc.config" ∷ [])
    ∷ ("lxc.files", "lxc.files.read" ∷ "lxc.files.write" ∷ [])
    ∷ ("lxc.stop", "lxc.force-stop" ∷ "lxc.shutdown" ∷ "lxc.reboot" ∷ [])
    ∷ ("lxc.snapshot", "lxc.snapshot.create" ∷ "lxc.snapshot.delete" ∷ "lxc.snapshot.rollback" ∷ [])
    ∷ ("storage.manage", "storage.view" ∷ "storage.delete" ∷ [])
    ∷ ("zfs.manage", "zfs.view" ∷ [])
    ∷ (
      "backup.manage",
      "backup.run" ∷ "backup.restore" ∷ "backup.delete" ∷ "backup.job.create" ∷ "backup.job.update"
          ∷ "backup.job.delete" ∷ [],
    )
    ∷ ("updates.execute", "updates.check" ∷ "updates.upgrade" ∷ "proxora.update" ∷ [])
    ∷ ("users.manage", "users.create" ∷ "users.update" ∷ "users.delete" ∷ [])
    ∷ ("roles.manage", "roles.create" ∷ "roles.update" ∷ "roles.delete" ∷ [])
    ∷ (
      "settings.manage",
      "settings.update" ∷ "notifications.view" ∷ "notifications.create" ∷ "notifications.update"
          ∷ "notifications.delete" ∷ [],
    )
    ∷ []
