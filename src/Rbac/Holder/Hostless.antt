-- ===== src/Rbac/Holder/Hostless.antt =====
-- The check without a host, by which the navigation and the lists decide what to show.
use proxora.Common.{
  String, true, List, [], ◌∷◌, Option, none, some, ◌≡◌, arith, any, lookup, values, Option-cases,
  string_eq, inl, inr,
}
use proxora.Rbac.Catalog.{Permission}
use proxora.Rbac.Grants.{has_permission}
use proxora.Rbac.Holder.{
  PermissionHolder, GuestPermissionRef, Overrides, guest_permission_key, override_at, permits,
  some_override_permits, guest_override, host_permission, hostless_permission, user_has_permission,
  truthy,
}

any-permits :
    (required : Permission) (key : String) (overrides : Overrides) (granted : List String)
    → lookup key overrides ≡ some (some granted)
    → has_permission (some granted) required ≡ true
    → any (permits required) (values overrides) ≡ true
unfolding lookup
any-permits required key [] granted found h = cc
any-permits required key ((j, v) ∷ overrides) granted found h =
    ground (arith, any-permits required key overrides granted)

override_at-permits :
    (required : Permission) (key : String) (overrides : Option Overrides) (granted : List String)
    → override_at key overrides ≡ some granted
    → has_permission (some granted) required ≡ true
    → some_override_permits required overrides ≡ true
unfolding override_at some_override_permits
override_at-permits required key none granted found h = cc
override_at-permits required key (some overrides) granted found h =
    any-permits required key overrides granted (ground arith) h

module _ (holder : PermissionHolder) (required : Permission) where
  host-hostless :
      (host_id : Option String)
      → host_permission holder required host_id ≡ true
      → hostless_permission holder required ≡ true
  unfolding host_permission hostless_permission
  host-hostless none h = h
  host-hostless (some host_id) h =
      elim (Option-cases (override_at host_id holder.host_permissions)) [
        | inl missing ↦ ground arith
        | inr (granted, found) ↦
            ground
              (arith, override_at-permits required host_id holder.host_permissions granted found)
      ]

  guest-hostless :
      (guest : Option GuestPermissionRef) (granted : List String)
      → guest_override holder required guest ≡ some granted
      → has_permission (some granted) required ≡ true
      → hostless_permission holder required ≡ true
  unfolding guest_override hostless_permission
  guest-hostless none granted found h = cc
  guest-hostless (some guest) granted found h = ground (
    arith,
    override_at-permits required (guest_permission_key guest) holder.guest_permissions granted,
  )

-- Whatever a user may do on some host or guest, the check without a host permits: it never hides an
-- action that the user has somewhere.
pub user_has_permission_hostless :
    (holder : PermissionHolder) (required : Permission) (host_id : Option String)
    (guest : Option GuestPermissionRef)
    → user_has_permission holder required host_id guest ≡ true
    → user_has_permission holder required none none ≡ true
unfolding user_has_permission
user_has_permission_hostless holder required host_id guest h =
    elim (Option-cases (guest_override holder required guest)) [
      | inl missing ↦ ground (arith, host-hostless holder required (truthy host_id))
      | inr (granted, found) ↦ ground (arith, guest-hostless holder required guest granted found)
    ]
