-- ===== src/Rbac/Grants.antt =====
-- lib/permissions.ts: what a list of granted strings permits. `undefined` is `none`.
pub mod Laws
use proxora.Common.{
  String, List, [], ◌∷◌, Bool, true, false, Option, none, some, ◌≡◌, refl, arith, any, filter,
  includes, add, add_all, lookup, ◌||◌, ◌&&◌, ◌==◌, string_eq,
}
use proxora.Rbac.Catalog.{Permission, permissions, legacy_permission_aliases}

add_extra : List String → Option (List Permission) → List String
add_extra out none = out
add_extra out (some extra) = add_all out extra

-- the loop of `expandPermissions`
expand_from : List String → List String → List String
expand_from out [] = out
expand_from out (raw ∷ granted) =
    expand_from (add_extra (add out raw) (lookup raw legacy_permission_aliases)) granted

unfoldable pub expand_permissions : Option (List String) → List String
unfolding expand_from add_extra
expand_permissions none = []
expand_permissions (some granted) = expand_from [] granted

unfoldable pub is_permission : String → Bool
is_permission value = includes permissions value

unfoldable pub sanitize_permissions : List String → List Permission
sanitize_permissions values =
    let expanded = expand_permissions (some values) in filter (λ p. includes expanded p) permissions

unfoldable pub has_permission : Option (List String) → Permission → Bool
has_permission granted required = includes (expand_permissions granted) required

unfoldable pub has_any_permission : Option (List String) → List Permission → Bool
has_any_permission granted required =
    let expanded = expand_permissions granted in any (λ p. includes expanded p) required
