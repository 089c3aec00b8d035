-- ===== src/Share/Tests.antt =====
-- Levels read from the database, and the theorems at shared hosts.
use proxora.Common.{[], ◌∷◌, true, false, not, none, some, ◌≡◌, refl, any, ◌||◌, string_eq}
use proxora.Share.{
  control, SharedHost, or_view, is_peer, parse_share_level, peer_host_allows_permission,
  share_has_permission, effective_share_permissions,
}
use proxora.Share.Levels.{tables}
use proxora.Share.Ceiling.{ceiling, is_grantable, peer_host_allows_permission-ceiling}
use proxora.Rbac.Grants.{has_any_permission}

running : Unit {0}
unfolding tables parse_share_level peer_host_allows_permission share_has_permission
    effective_share_permissions ceiling is_grantable has_any_permission
running = tt

level_in_capitals : parse_share_level (some "Control") ≡ some control
unfolding running
level_in_capitals = refl

unknown_level : parse_share_level (some "owner") ≡ none
unfolding running
unknown_level = refl

abbrev lent : SharedHost
lent = record {
  origin = some "PEER";
  share_level = some "CONTROL";
  share_permissions = some ("vm.files" ∷ "users.view" ∷ "hosts.console" ∷ []);
}

console_is_lent : peer_host_allows_permission lent ("hosts.console" ∷ "updates.upgrade" ∷ []) ≡ true
unfolding running
console_is_lent = refl

users_are_not_lent : peer_host_allows_permission lent ("users.view" ∷ []) ≡ false
unfolding running
users_are_not_lent = refl

peer_host_allows_permission-ceiling_example :
    peer_host_allows_permission lent ("vm.files.read" ∷ []) ≡ (
      not (is_peer lent.origin)
      || any
          (ceiling (or_view (parse_share_level lent.share_level)) lent.share_permissions)
          ("vm.files.read" ∷ []))
peer_host_allows_permission-ceiling_example =
    peer_host_allows_permission-ceiling lent ("vm.files.read" ∷ [])
