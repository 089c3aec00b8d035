-- ===== src/Share/Request.antt =====
-- lib/federation-access.ts, federationPermission: the permission that a proxied Proxmox call needs.
-- The regular expressions look at the segments of the path, which the code has in lower case: those
-- behind a slash, the last one first. Values of the query and of the body stand for their string form.
pub mod Laws
pub mod Levels
mod Tests
use mathlib.Core.List.{reverse, tail}
use proxora.Common.{
  ℕ, String, List, [], ◌∷◌, ◌++◌, Bool, true, false, not, Option, none, some, any, all, includes,
  string_eq, codes_eq, nat_eq, Codes, codes, starts_with, contains, split, lower, upper, ◌⧺◌, ◌&&◌,
  ◌||◌, ◌==◌, if◌then◌else◌,
}
use proxora.Kind.{Kind, vm, lxc, kind_name}
use proxora.Rbac.Catalog.{Permission}
use proxora.Share.{
  ShareLevel, view, control, create, share_view, share_create_only, share_default_deny,
}

-- FederationExtra: the entries that are read
pub record Extra : Type 0 where
  pub body_cmd : Option Codes
  pub body_command : Option Codes
  pub query_cmd : Option Codes
  pub query_command : Option Codes

-- `a ?? b`
abbrev pub or_next : Option Codes → Option Codes → Option Codes
or_next none b = b
or_next (some a) b = some a

abbrev pub or_empty_text : Option Codes → Codes
or_empty_text none = []
or_empty_text (some s) = s

unfoldable pub extra_cmd : Extra → Codes
extra_cmd extra = lower (
    or_empty_text (
      or_next (or_next extra.body_cmd extra.body_command)
        (or_next extra.query_cmd extra.query_command)))

-- A piece of a regular expression: `word`, or `[^/]+`.
pub data Piece : Type 0 where
  word : String → Piece
  something : Piece

unfoldable pub fits : Piece → Codes → Bool
fits (word w) segment = segment == codes w
fits something segment = not (segment == [])

-- `/\/p1\/p2\/...$/` with the last piece first
unfoldable pub ends : List Piece → List Codes → Bool
ends [] segments = true
ends (piece ∷ pieces) [] = false
ends (piece ∷ pieces) (segment ∷ segments) = fits piece segment && ends pieces segments

-- `/\/w(\/|$)/`
unfoldable pub passes : String → List Codes → Bool
passes w segments = any (λ s. s == codes w) segments

-- `/\/w\//`
unfoldable pub inside : String → List Codes → Bool
inside w [] = false
inside w (last ∷ segments) = passes w segments

-- `lower.includes("/w")`
unfoldable pub begins : String → List Codes → Bool
begins w segments = any (starts_with (codes w)) segments

-- A call: the method in capitals, and the path before the first `?` in lower case.
pub record Call : Type 0 where
  pub verb : Codes
  pub path : Codes
  pub segments : List Codes
  pub cmd : Codes

-- `path.split("?")[0] ?? ""`
abbrev pub first_part : List Codes → Codes
first_part [] = []
first_part (part ∷ parts) = part

unfoldable pub call_of : (method path : Codes) → Extra → Call
call_of method path extra =
    let plain = lower (first_part (split 63 path)) in
    record {
      verb = upper method;
      path = plain;
      segments = reverse (tail (split 47 plain));
      cmd = extra_cmd extra;
    }

unfoldable pub is_verb : String → Call → Bool
is_verb w c = c.verb == codes w

unfoldable pub is_read : Call → Bool
is_read c = is_verb "GET" c || is_verb "HEAD" c

unfoldable pub guest_action_permission : Kind → Call → Permission
guest_action_permission kind c =
    let prefix = kind_name kind in
    let at = λ (w : String). ends (word w ∷ word "status" ∷ []) c.segments in
    if at "start"
    then prefix ⧺ ".start"
    else if at "stop"
    then prefix ⧺ ".force-stop"
    else if at "shutdown"
    then prefix ⧺ ".shutdown"
    else if at "reboot"
    then prefix ⧺ ".reboot"
    else if at "reset"
    then "vm.reset"
    else if at "suspend"
    then "vm.pause"
    else if at "resume"
    then "vm.resume"
    else if ends (word "clone" ∷ []) c.segments
    then prefix ⧺ ".clone"
    else if ends (word "migrate" ∷ []) c.segments
    then prefix ⧺ ".migrate"
    else if ends (word "termproxy" ∷ []) c.segments
        || ends (word "vncproxy" ∷ []) c.segments
        || ends (word "vncwebsocket" ∷ []) c.segments
    then prefix ⧺ ".console"
    else if ends (word "rollback" ∷ something ∷ word "snapshot" ∷ []) c.segments
    then prefix ⧺ ".snapshot.rollback"
    else if passes "snapshot" c.segments
    then (if is_verb "DELETE" c
        then prefix ⧺ ".snapshot.delete"
        else if is_verb "POST" c
        then prefix ⧺ ".snapshot.create"
        else prefix ⧺ ".view")
    else if is_verb "DELETE" c
    then prefix ⧺ ".delete"
    else if is_verb "PUT" c || is_verb "POST" c
    then prefix ⧺ ".config"
    else prefix ⧺ ".view"

-- `/\/nodes\/[^/]+\/w$/`, the last word first
abbrev pub node_pieces : List String → List Piece
node_pieces [] = something ∷ word "nodes" ∷ []
node_pieces (w ∷ ws) = word w ∷ node_pieces ws

unfoldable pub at_node : List String → Call → Bool
at_node ws c = ends (node_pieces ws) c.segments

unfoldable pub in_guest : Call → Bool
in_guest c = inside "qemu" c.segments || inside "lxc" c.segments

-- `"deny"` is `none`; a single permission is a list of one.
abbrev pub need : Permission → Option (List Permission)
need p = some (p ∷ [])

-- What comes behind the test of a block of `if`s is `next`: a block without an `else` falls through.
apt_permission : Call → Option (List Permission)
apt_permission c =
    if is_read c
    then need "updates.view"
    else if is_verb "POST" c && ends (word "update" ∷ word "apt" ∷ []) c.segments
    then need "updates.check"
    else none

power_permission : Call → Option (List Permission)
power_permission c =
    if c.cmd == codes "reboot"
    then need "hosts.reboot"
    else if c.cmd == codes "shutdown"
    then need "hosts.shutdown"
    else none

guest_permission : Kind → Call → Option (List Permission)
guest_permission kind c =
    if is_read c then need (kind_name kind ⧺ ".view") else need (guest_action_permission kind c)

backup_permission : Call → Option (List Permission) → Option (List Permission)
backup_permission c next =
    if is_read c
    then need "backup.view"
    else if is_verb "DELETE" c
    then need "backup.delete"
    else if is_verb "POST" c && contains (codes "restore") c.path
    then need "backup.restore"
    else if is_verb "POST" c
    then need "backup.run"
    else next

vzdump_permission : Call → Option (List Permission) → Option (List Permission)
vzdump_permission c next =
    if is_read c then need "backup.view" else if is_verb "POST" c then need "backup.run" else next

storage_permission : Call → Option (List Permission) → Option (List Permission)
storage_permission c next =
    if is_read c
    then need "storage.view"
    else if is_verb "DELETE" c
    then need "storage.delete"
    else next

tasks_permission : Call → Option (List Permission)
tasks_permission c =
    if is_verb "DELETE" c || ends (word "status" ∷ []) c.segments && is_verb "POST" c
    then need "tasks.cancel"
    else need "tasks.view"

-- from the branch on `/disks/` on
rest_permission : Call → Option (List Permission)
unfolding tasks_permission
rest_permission c =
    if inside "disks" c.segments || begins "zfs" c.segments
    then need "zfs.view"
    else if begins "tasks" c.segments
    then tasks_permission c
    else if is_read c
    then need "hosts.view"
    else none

-- from the branch on storage and backups on
data_permission : Call → Option (List Permission)
unfolding backup_permission vzdump_permission storage_permission rest_permission
data_permission c =
    let is_storage = inside "storage" c.segments in
    let on_storage =
      if is_storage then storage_permission c (rest_permission c) else rest_permission c in
    let on_vzdump =
      if contains (codes "vzdump") c.path then vzdump_permission c on_storage else on_storage in
    if is_storage && (contains (codes "backup") c.path || contains (codes "vzdump") c.path)
    then backup_permission c on_vzdump
    else on_vzdump

-- the branches on nodes and guests
unfoldable pub call_permission : Call → Option (List Permission)
unfolding apt_permission power_permission guest_permission data_permission
call_permission c =
    if at_node ("stopall" ∷ "status" ∷ []) c || at_node ("startall" ∷ []) c
    then none
    else if inside "apt" c.segments
    then apt_permission c
    else if at_node ("status" ∷ []) c && is_verb "POST" c && not (in_guest c)
    then power_permission c
    else if at_node ("reboot" ∷ "status" ∷ []) c
    then need (if is_verb "POST" c then "hosts.reboot" else "hosts.view")
    else if at_node ("shutdown" ∷ "status" ∷ []) c
    then need (if is_verb "POST" c then "hosts.shutdown" else "hosts.view")
    else if at_node ("termproxy" ∷ []) c && not (in_guest c)
    then need (if c.cmd == codes "upgrade" then "updates.upgrade" else "hosts.console")
    else if at_node ("vncshell" ∷ []) c && not (in_guest c)
    then need "hosts.console"
    else if at_node ("vncwebsocket" ∷ []) c && not (in_guest c)
    then some ("hosts.console" ∷ "updates.upgrade" ∷ [])
    else if is_verb "POST" c && at_node ("qemu" ∷ []) c
    then need "vm.create"
    else if is_verb "POST" c && at_node ("lxc" ∷ []) c
    then need "lxc.create"
    else if inside "qemu" c.segments || at_node ("qemu" ∷ []) c
    then guest_permission vm c
    else if inside "lxc" c.segments || at_node ("lxc" ∷ []) c
    then guest_permission lxc c
    else data_permission c

unfoldable pub federation_permission : (method path : Codes) → Extra → Option (List Permission)
federation_permission method path extra = call_permission (call_of method path extra)

level_of : List Permission → Option ShareLevel
level_of needed =
    if any (includes share_create_only) needed
    then some create
    else if all (includes share_view) needed
    then some view
    else if any (includes share_default_deny) needed
    then none
    else some control

abbrev pub level_or_deny : Option (List Permission) → Option ShareLevel
unfolding level_of
level_or_deny none = none
level_or_deny (some needed) = level_of needed

-- `"deny"` is `none`.
unfoldable pub federation_action_level : (method path : Codes) → Extra → Option ShareLevel
unfolding level_or_deny
federation_action_level method path extra = level_or_deny (federation_permission method path extra)
