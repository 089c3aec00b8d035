-- ===== src/Share/Request/Tests.antt =====
-- Calls from the tests of the repository, and the theorems at calls.
use proxora.Common.{
  [], ◌∷◌, none, some, ◌≡◌, refl, codes, split, contains, starts_with, lower, lower_code, upper,
  upper_code, includes,
}
use proxora.Kind.{kind_name}
use proxora.Share.{view, control, create, share_view, share_create_only, share_default_deny}
use proxora.Share.Request.{
  fits, ends, passes, inside, begins, at_node, is_verb, is_read, in_guest, Extra, call_of,
  extra_cmd, guest_action_permission, call_permission, federation_permission,
  federation_action_level,
}

running : Unit {0}
unfolding split contains starts_with lower lower_code upper upper_code kind_name call_of extra_cmd
    guest_action_permission call_permission federation_permission federation_action_level share_view
    share_create_only share_default_deny includes fits ends passes inside begins at_node is_verb
    is_read in_guest
running = tt

abbrev nothing : Extra
nothing = record { body_cmd = none; body_command = none; query_cmd = none; query_command = none }

level_tests :
    (federation_action_level (codes "GET") (codes "/nodes/pve/qemu") nothing ≡ some view)
    × (federation_action_level (codes "POST") (codes "/nodes/pve/qemu") nothing ≡ some create)
    × (federation_action_level (codes "POST") (codes "/nodes/pve/qemu/100/status/start") nothing
        ≡ some control)
    × (federation_action_level
          (codes "POST")
          (codes "/nodes/pve/status")
          (record nothing { body_command = some (codes "reboot") })
        ≡ some control)
    × (federation_action_level (codes "POST") (codes "/nodes/pve/termproxy") nothing ≡ none)
    × (federation_action_level (codes "GET") (codes "/nodes/pve/apt/update") nothing ≡ some view)
unfolding running
level_tests = (refl, refl, refl, refl, refl, refl)

-- A disk pool can be destroyed, and a snapshot renamed, with permissions that only show.
write_tests :
    (federation_permission (codes "DELETE") (codes "/nodes/pve/disks/zfs/tank") nothing
      ≡ some ("zfs.view" ∷ []))
    × (federation_action_level (codes "DELETE") (codes "/nodes/pve/disks/zfs/tank") nothing
        ≡ some view)
    × (federation_action_level (codes "PUT") (codes "/nodes/pve/qemu/100/snapshot/a/config") nothing
        ≡ some view)
unfolding running
write_tests = (refl, refl, refl)
