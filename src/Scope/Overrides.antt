-- ===== src/Scope/Overrides.antt =====
-- The overrides of a session are those of the last rows for the host or the guest.
use text.Mathlib.TextEquality.{eq_iff}
use proxora.Common.{
  String, List, [], ◌∷◌, Bool, false, not, Option, none, some, ◌≡◌, refl, ap, ◌∙◌, arith, map,
  lookup, insert, lookup-insert, has_key, string_eq, nat_eq, ◌&&◌, ◌==◌, Bool-ext, if◌then◌else◌,
}
use proxora.Kind.{Kind, kind_eq}
use proxora.Rbac.Holder.{GuestPermissionRef, override_at, override_in, guest_permission_key}
use proxora.Scope.{
  GuestScope, HostAccessGrant, GuestAccessGrant, PermissionMap, override_of, host_overrides,
  add_hosts, put_guest, guest_overrides, session_scope_from_grants, unless_empty, guest_scope_key,
  parse_guest_kind, guests_of,
}
use proxora.Scope.Keys.{guest_scope_key-injective}

abbrev or_else {ℓ} : {A : Type ℓ} → Option A → Option A → Option A
or_else none next = next
or_else (some a) next = some a

-- The override column of the last row for the host.
abbrev pub last_host_override : String → List HostAccessGrant → Option (Option (List String))
last_host_override host_id [] = none
last_host_override host_id (row ∷ rows) =
    or_else (last_host_override host_id rows)
      (if row.host_id == host_id then some (override_of row.override row.permissions) else none)

lookup-host_overrides :
    (host_id : String) (out : PermissionMap) (rows : List HostAccessGrant)
    → lookup host_id (host_overrides out rows)
      ≡ or_else (last_host_override host_id rows) (lookup host_id out)
unfolding host_overrides
lookup-host_overrides host_id out [] = refl
lookup-host_overrides host_id out (row ∷ rows) =
    let override = override_of row.override row.permissions in
    ground (
      arith,
      lookup-host_overrides host_id (insert row.host_id override out) rows,
      lookup-insert row.host_id host_id override out,
    )

add_host : PermissionMap → String → PermissionMap
add_host out h = if not (has_key h out) then insert h none out else out

add_host-override :
    (host_id : String) (out : PermissionMap) (h : String)
    → override_in (lookup host_id (add_host out h)) ≡ override_in (lookup host_id out)
unfolding add_host
add_host-override host_id out h = ground (arith, lookup-insert h host_id none out, eq_iff h host_id)

add_hosts-override :
    (host_id : String) (out : PermissionMap) (host_ids : List String)
    → override_in (lookup host_id (add_hosts out host_ids)) ≡ override_in (lookup host_id out)
unfolding add_hosts add_host
add_hosts-override host_id out [] = refl
add_hosts-override host_id out (h ∷ host_ids) =
    add_hosts-override host_id (add_host out h) host_ids ∙ add_host-override host_id out h

override_at-unless_empty :
    (key : String) (m : PermissionMap)
    → override_at key (unless_empty m) ≡ override_in (lookup key m)
unfolding override_at lookup
override_at-unless_empty key [] = refl
override_at-unless_empty key (kv ∷ m) = refl

or_else-lookup : (o : Option (Option (List String))) (key : String) → or_else o (lookup key []) ≡ o
unfolding lookup
or_else-lookup none key = refl
or_else-lookup (some a) key = refl

-- In a session, the override for a host is what the last row for that host says, if it says one.
pub session_scope-host_override :
    (host_id : String) (host_access : List HostAccessGrant) (guest_access : List GuestAccessGrant)
    → override_at host_id (session_scope_from_grants host_access guest_access).host_permissions
      ≡ override_in (last_host_override host_id host_access)
unfolding session_scope_from_grants
session_scope-host_override host_id host_access guest_access =
    override_at-unless_empty host_id _
    ∙ add_hosts-override host_id _ (map (λ g. g.host_id) (guests_of guest_access))
    ∙ ap override_in (lookup-host_overrides host_id [] host_access ∙ or_else-lookup _ host_id)

-- A row for the guest: the host, the number and, after parsing, the kind agree.
abbrev pub matches_row : GuestPermissionRef → GuestAccessGrant → Option Kind → Bool
matches_row guest row none = false
matches_row guest row (some kind) =
    row.host_id == guest.host_id && kind == guest.kind && row.vmid == guest.vmid

-- The override column of the last row for the guest.
abbrev pub last_guest_override :
    GuestPermissionRef → List GuestAccessGrant → Option (Option (List String))
last_guest_override guest [] = none
last_guest_override guest (row ∷ rows) = or_else (last_guest_override guest rows) (
    if matches_row guest row (parse_guest_kind row.kind)
    then some (override_of row.override row.permissions)
    else none)

abbrev scope_of_ref : GuestPermissionRef → GuestScope
scope_of_ref guest = record { host_id = guest.host_id; kind = guest.kind; vmid = guest.vmid }

same_key :
    (guest : GuestPermissionRef) (g : GuestScope)
    → guest_scope_key g == guest_permission_key guest
      ≡ (g.host_id == guest.host_id && g.kind == guest.kind && g.vmid == guest.vmid)
unfolding guest_permission_key guest_scope_key
same_key guest g =
    Bool-ext _ _
      (λ h.
        let same = guest_scope_key-injective g (scope_of_ref guest) ((eq_iff _ _).0 h) in
        ground (arith, same, eq_iff g.host_id guest.host_id))
      (λ h. (eq_iff _ _).1 (ground (arith, eq_iff g.host_id guest.host_id)))

lookup-put_guest :
    (guest : GuestPermissionRef) (out : PermissionMap) (row : GuestAccessGrant) (kind : Option Kind)
    → lookup (guest_permission_key guest) (put_guest out row kind) ≡ (
        if matches_row guest row kind
        then some (override_of row.override row.permissions)
        else lookup (guest_permission_key guest) out)
unfolding put_guest
lookup-put_guest guest out row none = refl
lookup-put_guest guest out row (some kind) =
    let g : GuestScope = record { host_id = row.host_id; kind = kind; vmid = row.vmid } in
    lookup-insert (guest_scope_key g) (guest_permission_key guest) _ out
    ∙ ap
        (λ b.
          if b
          then some (override_of row.override row.permissions)
          else lookup (guest_permission_key guest) out)
        (same_key guest g)

lookup-guest_overrides :
    (guest : GuestPermissionRef) (out : PermissionMap) (rows : List GuestAccessGrant)
    → lookup (guest_permission_key guest) (guest_overrides out rows)
      ≡ or_else (last_guest_override guest rows) (lookup (guest_permission_key guest) out)
unfolding guest_overrides
lookup-guest_overrides guest out [] = refl
lookup-guest_overrides guest out (row ∷ rows) =
    let kind = parse_guest_kind row.kind in
    ground (
      arith,
      lookup-guest_overrides guest (put_guest out row kind) rows,
      lookup-put_guest guest out row kind,
    )

-- In a session, the override for a guest is what the last row for that very guest says, if it says
-- one: rows for other guests, and rows of an unknown kind, do not count.
pub session_scope-guest_override :
    (guest : GuestPermissionRef) (host_access : List HostAccessGrant)
    (guest_access : List GuestAccessGrant)
    → override_at
        (guest_permission_key guest)
        (session_scope_from_grants host_access guest_access).guest_permissions
      ≡ override_in (last_guest_override guest guest_access)
unfolding session_scope_from_grants
session_scope-guest_override guest host_access guest_access =
    override_at-unless_empty (guest_permission_key guest) _
    ∙ ap override_in (
        lookup-guest_overrides guest [] guest_access
        ∙ or_else-lookup _ (guest_permission_key guest))
