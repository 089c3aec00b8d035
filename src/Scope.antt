-- ===== src/Scope.antt =====
-- lib/guest-scope.ts: the hosts and guests that a user may see, from the rows of the database.
pub mod Keys
pub mod Access
pub mod Overrides
mod Tests
use proxora.Common.{
  ℕ, String, List, [], ◌∷◌, ◌++◌, Bool, true, false, not, Option, none, some, map, any, filter,
  includes, unique, lookup, insert, has_key, string_eq, nat_eq, decimal, ◌&&◌, ◌==◌, ◌⧺◌,
  if◌then◌else◌,
}
use proxora.Kind.{Kind, vm, lxc, kind_eq, kind_name}

pub record GuestScope : Type 0 where
  pub host_id : String
  pub kind : Kind
  pub vmid : ℕ

-- Null is `none`: all hosts, or all guests.
pub record AccessScope : Type 0 where
  pub allowed_host_ids : Option (List String)
  pub allowed_guests : Option (List GuestScope)

-- A missing `override` is false.
pub record HostAccessGrant : Type 0 where
  pub host_id : String
  pub permissions : Option (List String)
  pub override : Bool

pub record GuestAccessGrant : Type 0 where
  pub host_id : String
  pub kind : String
  pub vmid : ℕ
  pub permissions : Option (List String)
  pub override : Bool

unfoldable pub parse_guest_kind : String → Option Kind
parse_guest_kind value =
    if value == "vm" then some vm else if value == "lxc" then some lxc else none

unfoldable pub guest_scope_key : GuestScope → String
guest_scope_key scope = scope.host_id ⧺ ":" ⧺ kind_name scope.kind ⧺ ":" ⧺ decimal scope.vmid

abbrev pub PermissionMap : Type 0
PermissionMap = List (String × Option (List String))

abbrev pub or_empty : Option (List String) → List String
or_empty none = []
or_empty (some permissions) = permissions

-- `row.override ? [...(row.permissions ?? [])] : null`
abbrev pub override_of : Bool → Option (List String) → Option (List String)
override_of override permissions = if override then some (or_empty permissions) else none

-- the row as a guest, unless its kind is unknown
abbrev guest_of : GuestAccessGrant → Option Kind → Option GuestScope
guest_of row none = none
guest_of row (some kind) = some (record { host_id = row.host_id; kind = kind; vmid = row.vmid })

abbrev prepend {ℓ} : {A : Type ℓ} → Option A → List A → List A
prepend none xs = xs
prepend (some x) xs = x ∷ xs

-- the `flatMap` over `guestAccess`
unfoldable pub guests_of : List GuestAccessGrant → List GuestScope
guests_of [] = []
guests_of (row ∷ rows) = prepend (guest_of row (parse_guest_kind row.kind)) (guests_of rows)

-- `xs.length ? xs : null`
abbrev pub unless_empty {ℓ} : {A : Type ℓ} → List A → Option (List A)
unless_empty [] = none
unless_empty (x ∷ xs) = some (x ∷ xs)

unfoldable pub allowed_hosts : List String → List String → Option (List String)
allowed_hosts [] [] = none
allowed_hosts [] (g ∷ from_guests) = some (unique (g ∷ from_guests))
allowed_hosts (h ∷ from_access) _ = some (unique (h ∷ from_access))

host_overrides : PermissionMap → List HostAccessGrant → PermissionMap
host_overrides out [] = out
host_overrides out (row ∷ rows) =
    host_overrides (insert row.host_id (override_of row.override row.permissions) out) rows

add_hosts : PermissionMap → List String → PermissionMap
add_hosts out [] = out
add_hosts out (host_id ∷ host_ids) =
    add_hosts (if not (has_key host_id out) then insert host_id none out else out) host_ids

-- one round of the loop that fills `guestPermissions`
put_guest : PermissionMap → GuestAccessGrant → Option Kind → PermissionMap
put_guest out row none = out
put_guest out row (some kind) =
    insert (guest_scope_key (record { host_id = row.host_id; kind = kind; vmid = row.vmid }))
      (override_of row.override row.permissions) out

guest_overrides : PermissionMap → List GuestAccessGrant → PermissionMap
guest_overrides out [] = out
guest_overrides out (row ∷ rows) =
    guest_overrides (put_guest out row (parse_guest_kind row.kind)) rows

pub record SessionScope : Type 0 where
  pub access : AccessScope
  pub host_permissions : Option PermissionMap
  pub guest_permissions : Option PermissionMap

unfoldable pub session_scope_from_grants :
    List HostAccessGrant → List GuestAccessGrant → SessionScope
unfolding allowed_hosts host_overrides add_hosts guest_overrides put_guest
session_scope_from_grants host_access guest_access =
    let guests = guests_of guest_access in
    let host_from_access = map (λ h. h.host_id) host_access in
    let host_from_guests = map (λ g. g.host_id) guests in
    record {
      access = record {
        allowed_host_ids = allowed_hosts host_from_access host_from_guests;
        allowed_guests = unless_empty guests;
      };
      host_permissions = unless_empty (add_hosts (host_overrides [] host_access) host_from_guests);
      guest_permissions = unless_empty (guest_overrides [] guest_access);
    }

unfoldable pub lock_hosts_without_host_view : Option (List String) → Bool → Option (List String)
lock_hosts_without_host_view none has_host_view = if not has_host_view then some [] else none
lock_hosts_without_host_view (some allowed) has_host_view = some allowed

abbrev host_allowed : Option (List String) → String → Bool
host_allowed none host_id = true
host_allowed (some allowed) host_id = includes allowed host_id

unfoldable pub can_access_host : AccessScope → String → Bool
can_access_host user host_id = host_allowed user.allowed_host_ids host_id

abbrev pub is_guest : String → Kind → ℕ → GuestScope → Bool
is_guest host_id kind vmid g = g.host_id == host_id && g.kind == kind && g.vmid == vmid

abbrev guest_allowed : Option (List GuestScope) → String → Kind → ℕ → Bool
guest_allowed none host_id kind vmid = true
guest_allowed (some allowed) host_id kind vmid = any (is_guest host_id kind vmid) allowed

unfoldable pub can_access_guest : AccessScope → String → Kind → ℕ → Bool
can_access_guest user host_id kind vmid =
    if not (can_access_host user host_id)
    then false
    else guest_allowed user.allowed_guests host_id kind vmid

module _ {ℓ} {T : Type ℓ} (vmid_of : T → ℕ) where
  among_guests : Option (List GuestScope) → String → Kind → List T → List T
  among_guests none host_id kind items = items
  among_guests (some guests) host_id kind items =
      let allowed =
        unique (map (λ g. g.vmid) (filter (λ g. g.host_id == host_id && g.kind == kind) guests)) in
      filter (λ item. includes allowed (vmid_of item)) items

  unfoldable pub filter_guests_for_user : AccessScope → String → Kind → List T → List T
  unfolding among_guests
  filter_guests_for_user user host_id kind items =
      if not (can_access_host user host_id)
      then []
      else among_guests user.allowed_guests host_id kind items
