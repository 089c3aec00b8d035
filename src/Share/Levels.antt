-- ===== src/Share/Levels.antt =====
-- The ladder of levels.
use proxora.Common.{
  true, some, ◌≡◌, refl, all, includes, add, add_all, unique, lookup, string_eq, all-includes,
}
use proxora.Rbac.Catalog.{Permission, permissions, permission_catalog, legacy_permission_aliases}
use proxora.Rbac.Grants.{expand_permissions, is_permission, sanitize_permissions, has_permission}
use proxora.Rbac.Guests.{is_host_scoped_permission, host_grant_catalog}
use proxora.Share.{
  ShareLevel, view, control, create, share_rank, share_allows, share_view, share_create_only,
  share_default_deny, permissions_for_share_level, share_level_from_permissions,
}

unfoldable pub tables : Unit {0}
unfolding permissions permission_catalog legacy_permission_aliases expand_permissions is_permission
    sanitize_permissions has_permission is_host_scoped_permission host_grant_catalog share_rank
    share_allows share_view share_create_only share_default_deny permissions_for_share_level
    share_level_from_permissions includes add add_all unique lookup
tables = tt

-- The level that is read off the permissions of a level is that level.
pub share_level_from_permissions-permissions_for_share_level :
    (level : ShareLevel) → share_level_from_permissions (permissions_for_share_level level) ≡ level
unfolding tables
share_level_from_permissions-permissions_for_share_level view = refl
share_level_from_permissions-permissions_for_share_level control = refl
share_level_from_permissions-permissions_for_share_level create = refl

view_in_control :
    all (includes (permissions_for_share_level control)) (permissions_for_share_level view) ≡ true
unfolding tables
view_in_control = refl

control_in_create :
    all (includes (permissions_for_share_level create)) (permissions_for_share_level control) ≡ true
unfolding tables
control_in_create = refl

view_in_create :
    all (includes (permissions_for_share_level create)) (permissions_for_share_level view) ≡ true
unfolding tables
view_in_create = refl

-- A level that suffices for another has every permission of it.
pub permissions_for_share_level-share_allows :
    (granted needed : ShareLevel) (p : Permission)
    → share_allows granted (some needed) ≡ true
    → includes (permissions_for_share_level needed) p ≡ true
    → includes (permissions_for_share_level granted) p ≡ true
unfolding share_allows share_rank
permissions_for_share_level-share_allows view view p h m = m
permissions_for_share_level-share_allows view control p h m = cc
permissions_for_share_level-share_allows view create p h m = cc
permissions_for_share_level-share_allows control view p h m =
    all-includes _ (permissions_for_share_level view) p view_in_control m
permissions_for_share_level-share_allows control control p h m = m
permissions_for_share_level-share_allows control create p h m = cc
permissions_for_share_level-share_allows create view p h m =
    all-includes _ (permissions_for_share_level view) p view_in_create m
permissions_for_share_level-share_allows create control p h m =
    all-includes _ (permissions_for_share_level control) p control_in_create m
permissions_for_share_level-share_allows create create p h m = m
