-- ===== src/Share/Ceiling.antt =====
-- What the owner of a shared host lets a colleague do, in terms of the stored permissions.
use proxora.Common.{
  String, List, [], ◌∷◌, Bool, true, not, Option, none, some, ◌≡◌, refl, arith, any, all, includes,
  All-filter, includes-filter, string_eq, ◌&&◌, ◌||◌, ◌==◌, ◌∙◌, All-of_all, all-includes,
}
use proxora.Rbac.Catalog.{Permission}
use proxora.Rbac.Grants.{is_permission, sanitize_permissions, has_permission}
use proxora.Rbac.Grants.Laws.{
  has_permission-known, sanitize_permissions-All, includes-sanitize_permissions,
  has_any_permission-eq-any,
}
use proxora.Rbac.Guests.{host_grant_catalog}
use proxora.Share.Levels.{tables}
use proxora.Share.{
  ShareLevel, view, control, create, SharedHost, or_view, is_peer, parse_share_level,
  permissions_for_share_level, effective_share_permissions, share_has_permission,
  peer_host_allows_permission,
}

-- Whether a permission can be granted on a host.
unfoldable pub is_grantable : Permission → Bool
is_grantable p = any (λ m. m.id == p) host_grant_catalog

-- What the stored level and permissions let through: a list of permissions replaces the level.
unfoldable pub ceiling : ShareLevel → Option (List String) → Permission → Bool
ceiling level none p = includes (permissions_for_share_level level) p
ceiling level (some []) p = includes (permissions_for_share_level level) p
ceiling level (some (q ∷ stored)) p =
    is_grantable p && (is_permission p && has_permission (some (q ∷ stored)) p)

level_known : (level : ShareLevel) → all is_permission (permissions_for_share_level level) ≡ true
unfolding tables
level_known view = refl
level_known control = refl
level_known create = refl

has_permission-level :
    (level : ShareLevel) (p : Permission)
    → has_permission (some (permissions_for_share_level level)) p
      ≡ includes (permissions_for_share_level level) p
has_permission-level level p =
    has_permission-known (permissions_for_share_level level) p
      (All-of_all is_permission (permissions_for_share_level level) (level_known level))

has_permission-effective :
    (level : ShareLevel) (stored : Option (List String)) (p : Permission)
    → has_permission (some (effective_share_permissions level stored)) p ≡ ceiling level stored p
unfolding effective_share_permissions ceiling is_grantable
has_permission-effective level none p = has_permission-level level p
has_permission-effective level (some []) p = has_permission-level level p
has_permission-effective level (some (q ∷ stored)) p =
    has_permission-known _ p (All-filter _ is_grantable _ (sanitize_permissions-All (q ∷ stored)))
    ∙ includes-filter is_grantable (sanitize_permissions (q ∷ stored)) p
    ∙ ground (arith, includes-sanitize_permissions (q ∷ stored) p)

any_congr :
    (f g : Permission → Bool) (xs : List Permission)
    → ((p : Permission) → f p ≡ g p)
    → any f xs ≡ any g xs
any_congr f g [] same = refl
any_congr f g (x ∷ xs) same = ground (arith, same x, any_congr f g xs same)

-- On a host that a colleague shares, a request passes exactly if one of the permissions that it may need
-- lies under the ceiling of the stored level and permissions, where a non-empty list of permissions
-- replaces the level; on any other host this check passes.
pub peer_host_allows_permission-ceiling :
    (host : SharedHost) (needed : List Permission)
    → peer_host_allows_permission host needed ≡ (
        not (is_peer host.origin)
        || any
            (ceiling (or_view (parse_share_level host.share_level)) host.share_permissions)
            needed)
unfolding peer_host_allows_permission share_has_permission
peer_host_allows_permission-ceiling host needed =
    let level = or_view (parse_share_level host.share_level) in
    let granted = effective_share_permissions level host.share_permissions in
    ground (
      arith,
      has_any_permission-eq-any (some granted) needed,
      any_congr (has_permission (some granted)) (ceiling level host.share_permissions) needed
          (has_permission-effective level host.share_permissions),
    )

grantable_level : (level : ShareLevel) → all is_grantable (permissions_for_share_level level) ≡ true
unfolding tables is_grantable
grantable_level view = refl
grantable_level control = refl
grantable_level create = refl

ceiling-grantable :
    (level : ShareLevel) (stored : Option (List String)) (p : Permission)
    → ceiling level stored p ≡ true
    → is_grantable p ≡ true
unfolding ceiling
ceiling-grantable level none p h =
    all-includes is_grantable (permissions_for_share_level level) p (grantable_level level) h
ceiling-grantable level (some []) p h =
    all-includes is_grantable (permissions_for_share_level level) p (grantable_level level) h
ceiling-grantable level (some (q ∷ stored)) p h = ground arith

any_mono :
    (f g : Permission → Bool) (xs : List Permission)
    → ((p : Permission) → f p ≡ true → g p ≡ true)
    → any f xs ≡ true
    → any g xs ≡ true
any_mono f g [] step h = h
any_mono f g (x ∷ xs) step h = ground (arith, step x, any_mono f g xs step)

-- On a host that a colleague shares, no stored level and no stored list lets a request through that needs
-- none of the permissions that can be granted on hosts.
pub peer_host_allows_permission-grantable :
    (host : SharedHost) (needed : List Permission)
    → is_peer host.origin ≡ true
    → peer_host_allows_permission host needed ≡ true
    → any is_grantable needed ≡ true
peer_host_allows_permission-grantable host needed peer allowed =
    let level = or_view (parse_share_level host.share_level) in
    any_mono (ceiling level host.share_permissions) is_grantable needed
      (ceiling-grantable level host.share_permissions)
      (ground (arith, peer_host_allows_permission-ceiling host needed))
