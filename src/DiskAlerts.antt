-- ===== src/DiskAlerts.antt =====
-- lib/disk-alerts.ts: how full disks are, and when a notification goes out. Sizes are natural numbers; one
-- that is not given or no finite number is `none`. A percentage is a fraction, so that it is exact.
pub mod Scans
mod Tests
use proxora.Common.{
  ℕ, suc, ◌+◌, ◌-◌, ◌*◌, String, List, [], ◌∷◌, ◌++◌, Bool, true, false, not, Option, none, some,
  map, any, codes_eq, nat_eq, Codes, codes, lower, starts_with, leb, ltb, decimal, ◌⧺◌, ◌&&◌, ◌||◌,
  ◌==◌, if◌then◌else◌,
}
use proxora.Kind.{Kind, vm, lxc, kind_name}

-- `part * 100 / whole`
pub record Percent : Type 0 where
  pub part : ℕ
  pub whole : ℕ

-- `percent >= limit` and `percent < limit`
unfoldable pub reaches : Percent → ℕ → Bool
reaches percent limit = leb (limit * percent.whole) (percent.part * 100)

-- A setting: `none` if `Number` makes no finite number of it; else the nearest whole number, and 0 for less than that.
unfoldable pub clamp_percent : Option ℕ → (fallback : ℕ) → ℕ
clamp_percent none fallback = fallback
clamp_percent (some n) fallback = if ltb n 1 then 1 else if ltb 99 n then 99 else n

pub record DiskAlertSettings : Type 0 where
  pub alert_percent : ℕ
  pub clear_percent : ℕ

abbrev pub disk_alert_percent : ℕ
disk_alert_percent = 90

abbrev pub disk_clear_percent : ℕ
disk_clear_percent = 85

unfoldable pub parse_disk_alert_settings : (alert clear : Option ℕ) → DiskAlertSettings
parse_disk_alert_settings alert clear =
    let alert_at = clamp_percent alert disk_alert_percent in
    let clear_at = clamp_percent clear disk_clear_percent in
    record {
      alert_percent = alert_at;
      clear_percent = if leb alert_at clear_at then alert_at - 5 else clear_at;
    }

unfoldable pub disk_usage_percent : (used total : Option ℕ) → Option Percent
disk_usage_percent none total = none
disk_usage_percent (some used) none = none
disk_usage_percent (some used) (some total) =
    if total == 0
    then none
    else some (record { part = if leb total used then total else used; whole = total })

unfoldable pub guest_cluster_disk_percent : (used total : Option ℕ) → Option Percent
guest_cluster_disk_percent none total = none
guest_cluster_disk_percent (some used) total =
    if used == 0 then none else disk_usage_percent (some used) total

-- A flag that is not given is `none`.
abbrev is_zero : Option ℕ → Bool
is_zero none = false
is_zero (some n) = n == 0

unfoldable pub is_storage_monitored : (enabled active total : Option ℕ) → Bool
is_storage_monitored enabled active total =
    if is_zero enabled || is_zero active
    then false
    else elim total [ none ↦ false | some n ↦ not (n == 0) ]

pub record Size : Type 0 where
  pub used : Option ℕ
  pub total : Option ℕ

-- GuestFsEntry, with an empty text for one that is not given
pub record FsEntry : Type 0 where
  pub mountpoint : Codes
  pub fs_type : Codes
  pub size : Size
  pub disk : List Size

pub record FsUsage : Type 0 where
  pub mount : Codes
  pub used : ℕ
  pub total : ℕ

-- 512 MB
abbrev pub min_guest_fs_bytes : ℕ
min_guest_fs_bytes = 536870912

unfoldable pub skips_fs : Codes → Bool
skips_fs fs_type =
    any (λ (w : String). lower fs_type == codes w)
      ("tmpfs" ∷ "devtmpfs" ∷ "devfs" ∷ "overlay" ∷ "squashfs" ∷ "rpc_pipefs" ∷ "nsfs" ∷ "cgroup"
        ∷ "cgroup2" ∷ "proc" ∷ "sysfs" ∷ "fusectl" ∷ "debugfs" ∷ "tracefs" ∷ "ramfs" ∷ [])

unfoldable pub skips_mount : Codes → Bool
skips_mount mount =
    any (λ (w : String). mount == codes w || starts_with (codes w ++ codes "/") mount)
      ("/proc" ∷ "/sys" ∷ "/dev" ∷ "/run" ∷ "/snap" ∷ "/boot/efi" ∷ [])

abbrev usage_of : Codes → Option ℕ → Option ℕ → Option FsUsage
usage_of mount none total = none
usage_of mount (some used) none = none
usage_of mount (some used) (some total) =
    if total == 0 || ltb total min_guest_fs_bytes
    then none
    else some (record { mount = mount; used = used; total = total })

abbrev or_usage : Option FsUsage → Option FsUsage → Option FsUsage
or_usage none next = next
or_usage (some usage) next = some usage

-- the loop over the candidates
unfoldable pub first_usage : (mount : Codes) → List Size → Option FsUsage
first_usage mount [] = none
first_usage mount (c ∷ candidates) =
    or_usage (usage_of mount c.used c.total) (first_usage mount candidates)

unfoldable pub fs_usage : FsEntry → Option FsUsage
fs_usage entry = first_usage entry.mountpoint (entry.size ∷ entry.disk)

abbrev put_usage : Option FsUsage → List FsUsage → List FsUsage
put_usage none usages = usages
put_usage (some usage) usages = usage ∷ usages

unfoldable pub usable : List FsEntry → List FsUsage
usable [] = []
usable (entry ∷ entries) =
    let rest = usable entries in
    let mount = entry.mountpoint in
    if mount == [] || mount == codes "none" || skips_fs entry.fs_type || skips_mount mount
    then rest
    else put_usage (fs_usage entry) rest

unfoldable pub find_root : List FsUsage → Option FsUsage
find_root [] = none
find_root (u ∷ usages) =
    let rest = find_root usages in if u.mount == codes "/" then some u else rest

-- `usable.reduce(…)`
unfoldable pub biggest : FsUsage → List FsUsage → FsUsage
biggest best [] = best
biggest best (u ∷ usages) = biggest (if ltb best.total u.total then u else best) usages

abbrev without_root : (unix_root : Bool) → List FsUsage → Option FsUsage
without_root unix_root [] = none
without_root unix_root (u ∷ usages) = if unix_root then none else some (biggest u usages)

unfoldable pub guest_filesystem_usage : List FsEntry → Option FsUsage
guest_filesystem_usage entries =
    or_usage (find_root (usable entries))
      (without_root (any (λ (e : FsEntry). e.mountpoint == codes "/") entries) (usable entries))

unfoldable pub guest_filesystem_percent : List FsEntry → Option Percent
guest_filesystem_percent entries = elim (guest_filesystem_usage entries) [
  | none ↦ none
  | some usage ↦ disk_usage_percent (some usage.used) (some usage.total)
]

pub record Watched : Type 0 where
  pub notify : Bool
  pub notified : Bool

unfoldable pub apply_disk_watch_state :
    (notified : Bool) → Percent → (alert_at clear_at : ℕ) → Watched
apply_disk_watch_state notified percent alert_at clear_at =
    if reaches percent alert_at && not notified
    then record { notify = true; notified = true }
    else if not (reaches percent clear_at)
    then record { notify = false; notified = false }
    else record { notify = false; notified = notified }

unfoldable pub storage_disk_key : (host_id node storage : String) → String
storage_disk_key host_id node storage = "storage:" ⧺ host_id ⧺ ":" ⧺ node ⧺ ":" ⧺ storage

unfoldable pub guest_disk_key : (host_id : String) → Kind → (vmid : ℕ) → String
guest_disk_key host_id kind vmid = "guest:" ⧺ host_id ⧺ ":" ⧺ kind_name kind ⧺ ":" ⧺ decimal vmid
