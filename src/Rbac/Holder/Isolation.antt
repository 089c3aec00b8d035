-- ===== src/Rbac/Holder/Isolation.antt =====
-- Which grants a decision can depend on.
use text.Mathlib.TextEquality.{eq_iff}
use proxora.Common.{
  String, Bool, true, false, Option, none, some, ◌≡◌, ◌≢◌, refl, arith, all, string_eq,
  all-includes, not, ◌||◌, List,
}
use proxora.Rbac.Catalog.{Permission, permissions, permission_catalog}
use proxora.Rbac.Grants.{is_permission}
use proxora.Rbac.Guests.{is_host_scoped_permission, is_guest_action_permission}
use proxora.Rbac.Holder.{
  PermissionHolder, GuestPermissionRef, guest_permission_key, override_at, user_has_permission,
}

abbrev guest_action_is_host_scoped : Permission → Bool
guest_action_is_host_scoped p = not (is_guest_action_permission p) || is_host_scoped_permission p

guest_actions_host_scoped : all guest_action_is_host_scoped permissions ≡ true
unfolding permissions permission_catalog is_guest_action_permission is_host_scoped_permission
guest_actions_host_scoped = refl

pub host_scoped_of_guest_action :
    (p : Permission)
    → is_permission p ≡ true
    → is_guest_action_permission p ≡ true
    → is_host_scoped_permission p ≡ true
unfolding is_permission
host_scoped_of_guest_action p h g =
    let scoped =
      all-includes guest_action_is_host_scoped permissions p guest_actions_host_scoped h in
    ground arith

-- What a user may do on a host, and on a guest of it, depends on the role, on the override for that
-- host and on the override for that guest; no grant on another host or guest changes it.
pub user_has_permission_isolated :
    (a b : PermissionHolder) (required : Permission) (host_id : String) (guest : GuestPermissionRef)
    → host_id ≢ ""
    → a.role ≡ b.role
    → override_at host_id a.host_permissions ≡ override_at host_id b.host_permissions
    → override_at (guest_permission_key guest) a.guest_permissions
      ≡ override_at (guest_permission_key guest) b.guest_permissions
    → (user_has_permission a required (some host_id) none
        ≡ user_has_permission b required (some host_id) none)
      × (user_has_permission a required (some host_id) (some guest)
          ≡ user_has_permission b required (some host_id) (some guest))
unfolding user_has_permission
user_has_permission_isolated a b required host_id guest named role host override =
    (ground (arith, eq_iff host_id ""), ground (arith, eq_iff host_id ""))

-- For a permission that attaches to no host, only the role counts, whatever host or guest is named.
pub user_has_permission_global :
    (a b : PermissionHolder) (required : Permission) (host_a host_b : Option String)
    (guest_a guest_b : Option GuestPermissionRef)
    → is_host_scoped_permission required ≡ false
    → a.role ≡ b.role
    → user_has_permission a required host_a guest_a ≡ user_has_permission b required host_b guest_b
unfolding user_has_permission
user_has_permission_global a b required host_a host_b guest_a guest_b scope role = ground arith

-- An override for a guest alone decides what may be done with it: neither the role nor an override
-- for a host adds to it or takes from it.
pub user_has_permission_guest :
    (a b : PermissionHolder) (required : Permission) (host_a host_b : Option String)
    (guest : GuestPermissionRef) (granted : List String)
    → is_permission required ≡ true
    → is_guest_action_permission required ≡ true
    → override_at (guest_permission_key guest) a.guest_permissions ≡ some granted
    → override_at (guest_permission_key guest) b.guest_permissions ≡ some granted
    → user_has_permission a required host_a (some guest)
      ≡ user_has_permission b required host_b (some guest)
unfolding user_has_permission
user_has_permission_guest a b required host_a host_b guest granted known action at_a at_b =
    ground (arith, host_scoped_of_guest_action required known action)
