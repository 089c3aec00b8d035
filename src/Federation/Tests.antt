-- ===== src/Federation/Tests.antt =====
-- Calls of a peer, and the theorems at one.
use mathlib.Core.Option.{Option}
use proxora.Common.{
  String, [], ◌∷◌, none, some, ◌≡◌, ◌↔◌, refl, true, false, string_eq, codes, split, contains,
  starts_with, lower, lower_code, upper, upper_code,
}
use proxora.Errors.{ok, err, forbidden, not_found, validation}
use proxora.Kind.{kind_name, vm}
use proxora.Database.{find_first}
use proxora.Rbac.Guests.{guest_file_permission}
use proxora.Rbac.Grants.{has_any_permission}
use proxora.Share.Levels.{tables}
use proxora.Share.{effective_share_permissions, control, share_allows, share_has_permission}
use proxora.Share.Request.{
  fits, ends, passes, inside, begins, at_node, is_verb, is_read, in_guest, call_of, extra_cmd,
  guest_action_permission, call_permission, Extra, federation_permission, federation_action_level,
}
use proxora.Federation.{
  PeerKind, Peer, Host, HostShare, require_federation_peer, find_share, assert_shared_host,
  require_shared_guest_files, get, post, proxy_pve_request, bad_path, post_pve,
}
use proxora.Federation.Forward.{
  IsShareFor, IsGranted, IsGranted-share_allows, host_of, path_of, post_pve-IsGranted,
}

abbrev nothing : Extra
nothing = record { body_cmd = none; body_command = none; query_cmd = none; query_command = none }

abbrev peer : Peer
peer = record { id = "p1"; kind = PeerKind.proxora_panel }

abbrev host : Host
host = record { id = "h1"; is_local = true }

abbrev share : HostShare
share = record { peer_id = "p1"; host_id = "h1"; level = control; permissions = []; host = host }

abbrev find_peer : String → Option Peer
find_peer token = some peer

running : Unit {0}
unfolding tables share_has_permission effective_share_permissions has_any_permission find_first
    split contains starts_with lower lower_code upper upper_code kind_name guest_file_permission
    fits ends passes inside begins at_node is_verb is_read in_guest call_of extra_cmd
    guest_action_permission call_permission federation_permission federation_action_level
    share_allows require_federation_peer find_share assert_shared_host require_shared_guest_files
    bad_path proxy_pve_request post_pve IsShareFor IsGranted host_of path_of
running = tt

-- A share that only lets files be read lets the routes for files through, which also write.
abbrev read_share : HostShare
read_share = record share { permissions = "vm.files.read" ∷ [] }

federation_tests :
    (post_pve {Q = String} {B = String} find_peer
        (some "t")
        "h1"
        (codes "post")
        (codes "/nodes/pve/qemu/100/status/stop")
        nothing
        "q"
        "b"
        (share ∷ [])
      ≡ ok (post host (codes "/nodes/pve/qemu/100/status/stop") "b" "q"))
    × (post_pve {Q = String} {B = String} find_peer
          (some "t")
          "h2"
          (codes "GET")
          (codes "/version")
          nothing
          "q"
          "b"
          (share ∷ [])
        ≡ err (not_found "Host not shared"))
    × (post_pve {Q = String} {B = String} find_peer
          (some "t")
          "h1"
          (codes "GET")
          (codes "/nodes/../x")
          nothing
          "q"
          "b"
          (share ∷ [])
        ≡ err (validation "Invalid Proxmox path"))
    × (post_pve {Q = String} {B = String} find_peer
          (some "t")
          "h1"
          (codes "POST")
          (codes "/nodes/pve/vncshell")
          nothing
          "q"
          "b"
          (share ∷ [])
        ≡ err (forbidden "This host is not shared at that level"))
    × (require_shared_guest_files peer "h1" vm (read_share ∷ []) ≡ ok host)
unfolding running
federation_tests = (refl, refl, refl, refl, refl)

post_pve-IsGranted_example :
    (text : String) × (p : Peer) × (s : HostShare) × (some "t" ≡ some text)
    × (find_peer text ≡ some p)
    × (p.kind ≡ PeerKind.proxora_panel)
    × IsShareFor p "h1" s
    × IsGranted s (codes "GET") (codes "/nodes/pve/qemu") nothing
    × (host_of {Q = String} {B = String} (get host (codes "/nodes/pve/qemu") "q") ≡ s.host)
    × (path_of {Q = String} {B = String} (get host (codes "/nodes/pve/qemu") "q")
        ≡ codes "/nodes/pve/qemu")
    × (bad_path (codes "/nodes/pve/qemu") ≡ false)
unfolding running
post_pve-IsGranted_example =
    post_pve-IsGranted {Q = String} {B = String} find_peer (some "t") "h1" (codes "GET")
      (codes "/nodes/pve/qemu") nothing "q" "b" (share ∷ [])
      (get host (codes "/nodes/pve/qemu") "q") refl

IsGranted-share_allows_example : IsGranted share (codes "GET") (codes "/nodes/pve/qemu") nothing ↔ (
    share_allows share.level
      (federation_action_level (codes "GET") (codes "/nodes/pve/qemu") nothing)
    ≡ true)
IsGranted-share_allows_example =
    IsGranted-share_allows share (codes "GET") (codes "/nodes/pve/qemu") nothing refl
