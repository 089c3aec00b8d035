-- ===== src/Rbac/Holder.antt =====
-- lib/permissions.ts: may this user do that? Guest and host overrides, and the role.
pub mod Isolation
pub mod Hostless
use proxora.Common.{
  ℕ, String, List, [], ◌∷◌, Bool, true, false, not, Option, none, some, any, lookup, values,
  string_eq, decimal, ◌||◌, ◌&&◌, ◌==◌, ◌⧺◌, if◌then◌else◌,
}
use proxora.Kind.{Kind, kind_name}
use proxora.Rbac.Catalog.{Permission}
use proxora.Rbac.Grants.{has_permission}
use proxora.Rbac.Guests.{is_host_scoped_permission, is_guest_action_permission}

pub record GuestPermissionRef : Type 0 where
  pub host_id : String
  pub kind : Kind
  pub vmid : ℕ

-- `Record<string, string[] | null>`: a value that is null, `none` here, is no override.
abbrev pub Overrides : Type 0
Overrides = List (String × Option (List String))

-- `role` is `role?.permissions`; null and undefined are `none`.
pub record PermissionHolder : Type 0 where
  pub role : Option (List String)
  pub host_permissions : Option Overrides
  pub guest_permissions : Option Overrides

unfoldable pub guest_permission_key : GuestPermissionRef → String
guest_permission_key guest = guest.host_id ⧺ ":" ⧺ kind_name guest.kind ⧺ ":" ⧺ decimal guest.vmid

abbrev pub override_in : Option (Option (List String)) → Option (List String)
override_in none = none
override_in (some override) = override

-- `overrides?.[key]`
unfoldable pub override_at : String → Option Overrides → Option (List String)
override_at key none = none
override_at key (some overrides) = override_in (lookup key overrides)

abbrev permits : Permission → Option (List String) → Bool
permits required none = false
permits required (some granted) = has_permission (some granted) required

-- `Object.values(overrides).some((granted) => Boolean(granted && hasPermission(granted, required)))`
unfoldable pub some_override_permits : Permission → Option Overrides → Bool
some_override_permits required none = false
some_override_permits required (some overrides) = any (permits required) (values overrides)

-- `if (hostId)`: null, undefined and the empty string are no host.
abbrev pub truthy : Option String → Option String
truthy none = none
truthy (some s) = if s == "" then none else some s

-- `if (override) return hasPermission(override, required)`, and what comes after it
abbrev pub decide_by : Permission → Option (List String) → Bool → Bool
decide_by required none next = next
decide_by required (some override) next = has_permission (some override) required

module _ (holder : PermissionHolder) (required : Permission) where
  hostless_permission : Bool
  hostless_permission =
      if has_permission holder.role required
      then true
      else if some_override_permits required holder.host_permissions
      then true
      else some_override_permits required holder.guest_permissions

  host_permission : Option String → Bool
  unfolding hostless_permission override_at some_override_permits
  host_permission none = hostless_permission
  host_permission (some host_id) =
      decide_by required (override_at host_id holder.host_permissions)
        (has_permission holder.role required)

  guest_override : Option GuestPermissionRef → Option (List String)
  unfolding override_at
  guest_override none = none
  guest_override (some guest) =
      if is_guest_action_permission required
      then override_at (guest_permission_key guest) holder.guest_permissions
      else none

  unfoldable pub user_has_permission : Option String → Option GuestPermissionRef → Bool
  unfolding host_permission guest_override
  user_has_permission host_id guest =
      if not (is_host_scoped_permission required)
      then has_permission holder.role required
      else decide_by required (guest_override guest) (host_permission (truthy host_id))

unfoldable pub user_has_any_permission :
    PermissionHolder → List Permission → Option String → Option GuestPermissionRef → Bool
user_has_any_permission holder required host_id guest =
    any (λ p. user_has_permission holder p host_id guest) required
