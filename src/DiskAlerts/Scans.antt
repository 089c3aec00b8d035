-- ===== src/DiskAlerts/Scans.antt =====
-- server/services/disk-watch.ts, remember: one scan of all disks, which notifies and stores the flags. A sample is
-- its key and how full the disk is. `sent` has the keys that are notified, and its length is the count.
pub mod Laws
use proxora.Common.{
  String, List, [], ◌∷◌, Bool, true, false, Option, none, some, map, filter, includes, lookup,
  insert, string_eq, if◌then◌else◌, ℕ,
}
use proxora.DiskAlerts.{Percent, DiskAlertSettings, Watched, apply_disk_watch_state}

abbrev pub Flags : Type 0
Flags = List (String × Bool)

abbrev pub Samples : Type 0
Samples = List (String × Percent)

-- `notified[key] ?? false`
abbrev pub or_false : Option Bool → Bool
or_false none = false
or_false (some flag) = flag

unfoldable pub flag_of : String → Flags → Bool
flag_of key flags = or_false (lookup key flags)

-- The flags of the disks that are in the scan.
unfoldable pub live_flags : Samples → Flags → Flags
live_flags samples flags = filter (λ kv. includes (map (λ s. s.0) samples) kv.0) flags

-- The loop over the samples.
unfoldable pub watch_all : DiskAlertSettings → Samples → Flags → List String × Flags
watch_all settings [] flags = ([], flags)
watch_all settings ((key, percent) ∷ samples) flags =
    let next =
      apply_disk_watch_state (flag_of key flags) percent settings.alert_percent
        settings.clear_percent in
    let rest = watch_all settings samples (insert key next.notified flags) in
    (if next.notify then key ∷ rest.0 else rest.0, rest.1)

unfoldable pub remember : DiskAlertSettings → Samples → Flags → List String × Flags
remember settings samples flags = watch_all settings samples (live_flags samples flags)
