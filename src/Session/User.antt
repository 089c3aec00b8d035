-- ===== src/Session/User.antt =====
-- What a session user may see and do, in terms of the rows of the database.
use text.Mathlib.TextEquality.{eq_iff}
use proxora.Common.{
  String, List, [], ◌∷◌, Bool, true, false, Option, none, some, ◌≡◌, ◌≢◌, refl, arith, map,
  includes, includes-unique, lookup, string_eq,
}
use proxora.Rbac.Catalog.{Permission}
use proxora.Rbac.Grants.{is_permission, has_permission}
use proxora.Rbac.Grants.Laws.{has_permission-sanitize_known}
use proxora.Rbac.Guests.{is_host_scoped_permission, is_guest_action_permission}
use proxora.Rbac.Holder.{
  GuestPermissionRef, guest_permission_key, override_at, override_in, user_has_permission,
  decide_by,
}
use proxora.Rbac.Holder.Isolation.{host_scoped_of_guest_action}
use proxora.Scope.{
  PermissionMap, guests_of, session_scope_from_grants, allowed_hosts, lock_hosts_without_host_view,
  can_access_host,
}
use proxora.Scope.Overrides.{
  last_host_override, last_guest_override, session_scope-host_override,
  session_scope-guest_override,
}
use proxora.Database.{UserRow, RoleRow}
use proxora.Session.{
  to_session_user, scope_of, holder_of, sanitize_override, sanitize_map, sanitize_maps,
}

-- Rows for hosts decide if there are any, then the hosts of the rows for guests, then the role.
abbrev pub sees_host : List String → List String → Bool → String → Bool
sees_host [] [] has_host_view host_id = has_host_view
sees_host [] (g ∷ from_guests) has_host_view host_id = includes (g ∷ from_guests) host_id
sees_host (h ∷ from_access) from_guests has_host_view host_id = includes (h ∷ from_access) host_id

sees_host-allowed :
    (from_access from_guests : List String) (view : Bool) (host_id : String)
    → can_access_host
        (record {
          allowed_host_ids =
              lock_hosts_without_host_view (allowed_hosts from_access from_guests) view;
          allowed_guests = none;
        })
        host_id
      ≡ sees_host from_access from_guests view host_id
unfolding can_access_host lock_hosts_without_host_view allowed_hosts includes
sees_host-allowed [] [] true host_id = refl
sees_host-allowed [] [] false host_id = refl
sees_host-allowed [] (g ∷ from_guests) view host_id = includes-unique (g ∷ from_guests) host_id
sees_host-allowed (h ∷ from_access) from_guests view host_id =
    includes-unique (h ∷ from_access) host_id

-- A session user may access exactly the hosts that the rows for hosts name; without such rows, the
-- hosts of the guests that the rows for guests name; without any rows, all hosts if the role may see
-- hosts, and none otherwise.
pub to_session_user-can_access_host :
    (user : UserRow) (role : RoleRow) (host_id : String)
    → can_access_host (scope_of (to_session_user user role)) host_id
      ≡ sees_host
          (map (λ h. h.host_id) user.host_access)
          (map (λ g. g.host_id) (guests_of user.guest_access))
          (has_permission (some role.permissions) "hosts.view")
          host_id
unfolding to_session_user session_scope_from_grants can_access_host
to_session_user-can_access_host user role host_id =
    sees_host-allowed (map (λ h. h.host_id) user.host_access)
      (map (λ g. g.host_id) (guests_of user.guest_access))
      (has_permission (some role.permissions) "hosts.view") host_id

lookup-sanitize_map :
    (key : String) (m : PermissionMap)
    → override_in (lookup key (sanitize_map m)) ≡ sanitize_override (override_in (lookup key m))
unfolding sanitize_map lookup
lookup-sanitize_map key [] = refl
lookup-sanitize_map key ((j, granted) ∷ m) = ground (arith, lookup-sanitize_map key m)

override_at-sanitize_maps :
    (key : String) (m : Option PermissionMap)
    → override_at key (sanitize_maps m) ≡ sanitize_override (override_at key m)
unfolding sanitize_maps override_at
override_at-sanitize_maps key none = refl
override_at-sanitize_maps key (some m) = lookup-sanitize_map key m

decide_by-sanitize :
    (required : Permission) (override : Option (List String)) (next : Bool)
    → is_permission required ≡ true
    → decide_by required (sanitize_override override) next ≡ decide_by required override next
decide_by-sanitize required none next known = refl
decide_by-sanitize required (some granted) next known =
    has_permission-sanitize_known granted required known

-- On a host, a known permission that attaches to hosts is decided by the last row for that host if it
-- overrides the role, and otherwise by the role.
pub to_session_user-host_permission :
    (user : UserRow) (role : RoleRow) (required : Permission) (host_id : String)
    → host_id ≢ ""
    → is_permission required ≡ true
    → is_host_scoped_permission required ≡ true
    → user_has_permission (holder_of (to_session_user user role)) required (some host_id) none
      ≡ decide_by required
          (override_in (last_host_override host_id user.host_access))
          (has_permission (some role.permissions) required)
unfolding to_session_user user_has_permission
to_session_user-host_permission user role required host_id named known scoped =
    let scope = session_scope_from_grants user.host_access user.guest_access in
    ground (
      arith,
      eq_iff host_id "",
      override_at-sanitize_maps host_id scope.host_permissions,
      session_scope-host_override host_id user.host_access user.guest_access,
      decide_by-sanitize required (override_in (last_host_override host_id user.host_access))
          (has_permission (some role.permissions) required),
    )

-- With a guest, a known permission for actions on guests is decided by the last row for that very guest
-- if it overrides, whatever the role and the rows for hosts say.
pub to_session_user-guest_permission :
    (user : UserRow) (role : RoleRow) (required : Permission) (host_id : Option String)
    (guest : GuestPermissionRef) (granted : List String)
    → is_permission required ≡ true
    → is_guest_action_permission required ≡ true
    → last_guest_override guest user.guest_access ≡ some (some granted)
    → user_has_permission (holder_of (to_session_user user role)) required host_id (some guest)
      ≡ has_permission (some granted) required
unfolding to_session_user user_has_permission
to_session_user-guest_permission user role required host_id guest granted known action row =
    let scope = session_scope_from_grants user.host_access user.guest_access in
    ground (
      arith,
      host_scoped_of_guest_action required known action,
      override_at-sanitize_maps (guest_permission_key guest) scope.guest_permissions,
      session_scope-guest_override guest user.host_access user.guest_access,
      has_permission-sanitize_known granted required known,
    )
