-- ===== src/DiskAlerts/Tests.antt =====
-- Scans of disks, and the theorem at some.
use proxora.Common.{
  ℕ, [], ◌∷◌, true, false, not, none, some, ◌≡◌, refl, codes, lookup, insert, includes, map,
  starts_with, lower, lower_code, string_eq, nat_eq, codes_eq,
}
use proxora.DiskAlerts.{
  reaches, clamp_percent, parse_disk_alert_settings, disk_usage_percent, skips_fs, skips_mount,
  first_usage, fs_usage, usable, find_root, biggest, guest_filesystem_usage,
  guest_filesystem_percent, apply_disk_watch_state,
}
use proxora.DiskAlerts.Scans.{Samples, flag_of, live_flags, watch_all, remember}
use proxora.DiskAlerts.Scans.Laws.{has_sample, stays_at, hovers, notices, notices-once}

running : Unit {0}
unfolding lookup insert includes starts_with lower lower_code reaches clamp_percent
    parse_disk_alert_settings disk_usage_percent skips_fs skips_mount first_usage fs_usage usable
    find_root biggest guest_filesystem_usage guest_filesystem_percent apply_disk_watch_state flag_of
    live_flags watch_all remember has_sample stays_at hovers notices
running = tt

abbrev at : ℕ → Samples
at percent = ("d", record { part = percent; whole = 100 }) ∷ []

disk_tests :
    (notices "d"
        (parse_disk_alert_settings none none)
        (at 91 ∷ at 88 ∷ at 95 ∷ at 80 ∷ at 92 ∷ [])
        []
      ≡ true ∷ false ∷ false ∷ false ∷ true ∷ [])
    -- A scan without the disk forgets that it was notified.
    × (notices "d" (parse_disk_alert_settings none none) (at 91 ∷ [] ∷ at 91 ∷ []) []
        ≡ true ∷ false ∷ true ∷ [])
    × (guest_filesystem_percent (
          record {
            mountpoint = codes "/boot/efi";
            fs_type = codes "vfat";
            size = record { used = some 600000000; total = some 600000000 };
            disk = [];
          }
          ∷ record {
            mountpoint = codes "/";
            fs_type = codes "ext4";
            size = record { used = some 500000000; total = some 1000000000 };
            disk = [];
          }
          ∷ [])
        ≡ some (record { part = 500000000; whole = 1000000000 }))
unfolding running
disk_tests = (refl, refl, refl)

notices-once_example :
    notices "d" (parse_disk_alert_settings none none) (at 91 ∷ at 88 ∷ []) []
    ≡ not (flag_of "d" []) ∷ map (λ (samples : Samples). false) (at 88 ∷ [])
unfolding running
notices-once_example = notices-once none none "d" (at 91) (at 88 ∷ []) [] refl refl refl
