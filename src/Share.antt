-- ===== src/Share.antt =====
-- lib/federation-access.ts, the levels of a shared host and the permissions that they stand for.
pub mod Levels
pub mod Ceiling
pub mod Request
mod Tests
use Prim.Native.Char.{code}
use Prim.Native.String
use proxora.Common.{
  ℕ, ◌+◌, String, List, [], ◌∷◌, ◌++◌, Bool, true, false, not, Option, none, some, map, any, filter,
  includes, string_eq, nat_eq, leb, ◌&&◌, ◌==◌, if◌then◌else◌,
}
use proxora.Rbac.Catalog.{Permission, PermissionMeta}
use proxora.Rbac.Grants.{sanitize_permissions, has_permission, has_any_permission}
use proxora.Rbac.Guests.{host_grant_catalog}

pub data ShareLevel : Type 0 where
  view control create : ShareLevel

-- RANK
unfoldable pub share_rank : ShareLevel → ℕ
share_rank view = 1
share_rank control = 2
share_rank create = 3

-- `"deny"` is `none`.
unfoldable pub share_allows : ShareLevel → Option ShareLevel → Bool
share_allows granted none = false
share_allows granted (some needed) = leb (share_rank needed) (share_rank granted)

-- The number of a character in lower case, for A to Z. No other character has a lower case form among
-- the letters of the words below.
lower_letter : ℕ → ℕ
lower_letter n = if leb 65 n && leb n 90 then n + 32 else n

-- `value.toLowerCase() === word`
lowers_to : String → String → Bool
unfolding lower_letter
lowers_to String.[] String.[] = true
lowers_to String.[] (String.◌∷◌ d word) = false
lowers_to (String.◌∷◌ c value) String.[] = false
lowers_to (String.◌∷◌ c value) (String.◌∷◌ d word) =
    lower_letter (code c) == code d && lowers_to value word

level_word : String → Option ShareLevel
unfolding lowers_to
level_word value =
    if lowers_to value "view"
    then some view
    else if lowers_to value "control"
    then some control
    else if lowers_to value "create"
    then some create
    else none

-- null and undefined become the empty string.
unfoldable pub parse_share_level : Option String → Option ShareLevel
unfolding level_word
parse_share_level none = none
parse_share_level (some value) = level_word value

unfoldable pub share_view : List Permission
share_view =
    "hosts.view" ∷ "vm.view" ∷ "lxc.view" ∷ "storage.view" ∷ "zfs.view" ∷ "backup.view"
    ∷ "updates.view" ∷ "tasks.view" ∷ []

unfoldable pub share_create_only : List Permission
share_create_only = "vm.create" ∷ "vm.clone" ∷ "lxc.create" ∷ "lxc.clone" ∷ []

unfoldable pub share_default_deny : List Permission
share_default_deny =
    "hosts.console" ∷ "hosts.delete" ∷ "hosts.credentials" ∷ "updates.check" ∷ "updates.upgrade"
    ∷ []

abbrev pub catalog_ids : List Permission
catalog_ids = map (λ p. p.id) host_grant_catalog

-- `new Set([...SHARE_DEFAULT_DENY, ...(level === "control" ? SHARE_CREATE_ONLY : [])])`
abbrev denied_to : ShareLevel → List Permission
denied_to view = share_default_deny
denied_to control = share_default_deny ++ share_create_only
denied_to create = share_default_deny

unfoldable pub permissions_for_share_level : ShareLevel → List Permission
unfolding share_view share_create_only share_default_deny
permissions_for_share_level view = filter (includes catalog_ids) share_view
permissions_for_share_level control = filter (λ p. not (includes (denied_to control) p)) catalog_ids
permissions_for_share_level create = filter (λ p. not (includes (denied_to create) p)) catalog_ids

unfoldable pub share_level_from_permissions : List String → ShareLevel
share_level_from_permissions permissions =
    let perms = sanitize_permissions permissions in
    if any (has_permission (some perms)) share_create_only
    then create
    else if any (λ p. not (includes (permissions_for_share_level view) p)) perms
    then control
    else view

-- An empty list of permissions counts as none.
unfoldable pub effective_share_permissions : ShareLevel → Option (List String) → List Permission
effective_share_permissions level none = permissions_for_share_level level
effective_share_permissions level (some []) = permissions_for_share_level level
effective_share_permissions level (some (p ∷ permissions)) =
    filter (λ q. any (λ m. m.id == q) host_grant_catalog) (sanitize_permissions (p ∷ permissions))

unfoldable pub share_has_permission : ShareLevel → Option (List String) → List Permission → Bool
share_has_permission level permissions needed =
    has_any_permission (some (effective_share_permissions level permissions)) needed

pub record SharedHost : Type 0 where
  pub origin : Option String
  pub share_level : Option String
  pub share_permissions : Option (List String)

abbrev pub or_view : Option ShareLevel → ShareLevel
or_view none = view
or_view (some level) = level

abbrev pub is_peer : Option String → Bool
is_peer none = false
is_peer (some origin) = origin == "PEER"

unfoldable pub peer_host_allows_permission : SharedHost → List Permission → Bool
peer_host_allows_permission host needed =
    if not (is_peer host.origin)
    then true
    else share_has_permission (or_view (parse_share_level host.share_level)) host.share_permissions
        needed
