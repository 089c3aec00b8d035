-- ===== src/Rbac/Guests/Laws.antt =====
-- What a guest grant holds after `normalizeGuestPermissions`.
use proxora.Common.{
  String, List, true, false, some, ◌≡◌, refl, arith, all, All, filter, includes, add, unique, map,
  ◌||◌, ◌&&◌, ◌==◌, string_eq, includes-add, includes-unique, includes-filter, all-includes,
  All-of_includes, filter_congr, ==_refl,
}
use text.Mathlib.TextEquality.{eq_iff}
use proxora.Kind.{Kind, vm, lxc}
use proxora.Rbac.Catalog.{Permission, permissions, permission_catalog}
use proxora.Rbac.Grants.{is_permission, sanitize_permissions, has_permission}
use proxora.Rbac.Grants.Laws.{has_permission-known, includes-sanitize_permissions}
use proxora.Rbac.Guests.{
  guest_grant_catalog, view_permission, files_read_permission, files_write_permission,
  add_files_read, normalize_guest_permissions, is_guest_action_permission,
}

-- The permissions that can be granted on a guest of the kind.
unfoldable pub guest_ids : Kind → List Permission
guest_ids kind = map (λ p. p.id) (guest_grant_catalog kind)

guest_tables : Unit {0}
unfolding guest_ids guest_grant_catalog permission_catalog is_guest_action_permission includes
    is_permission permissions
guest_tables = tt

guest_ids-known : (kind : Kind) → all is_permission (guest_ids kind) ≡ true
unfolding guest_tables
guest_ids-known vm = refl
guest_ids-known lxc = refl

is_permission-guest_ids :
    (kind : Kind) (p : Permission) → includes (guest_ids kind) p ≡ true → is_permission p ≡ true
is_permission-guest_ids kind p h =
    all-includes is_permission (guest_ids kind) p (guest_ids-known kind) h

view_listed : (kind : Kind) → includes (guest_ids kind) (view_permission kind) ≡ true
unfolding guest_tables
view_listed vm = refl
view_listed lxc = refl

read_listed : (kind : Kind) → includes (guest_ids kind) (files_read_permission kind) ≡ true
unfolding guest_tables
read_listed vm = refl
read_listed lxc = refl

write_listed : (kind : Kind) → includes (guest_ids kind) (files_write_permission kind) ≡ true
unfolding guest_tables
write_listed vm = refl
write_listed lxc = refl

view_not_write : (kind : Kind) → view_permission kind == files_write_permission kind ≡ false
view_not_write vm = refl
view_not_write lxc = refl

read_not_write : (kind : Kind) → files_read_permission kind == files_write_permission kind ≡ false
read_not_write vm = refl
read_not_write lxc = refl

chosen : Kind → List String → List Permission
chosen kind granted =
    unique (filter (includes (unique (guest_ids kind))) (sanitize_permissions granted))

includes-chosen :
    (kind : Kind) (granted : List String) (p : Permission)
    → includes (chosen kind granted) p
      ≡ (is_permission p && has_permission (some granted) p && includes (guest_ids kind) p)
unfolding chosen
includes-chosen kind granted p =
    let ids = unique (guest_ids kind) in
    ground (
      arith,
      includes-unique (filter (includes ids) (sanitize_permissions granted)) p,
      includes-filter (includes ids) (sanitize_permissions granted) p,
      includes-sanitize_permissions granted p,
      includes-unique (guest_ids kind) p,
    )

includes-add_files_read :
    (kind : Kind) (out : List Permission) (p : Permission)
    → includes (add_files_read kind out) p ≡ (
        includes out p
        || includes out (files_write_permission kind) && files_read_permission kind == p)
unfolding add_files_read
includes-add_files_read kind out p = ground (arith, includes-add out (files_read_permission kind) p)

-- the set before it is put into the order of the catalogue
before_order : Kind → List String → List Permission
before_order kind granted = add_files_read kind (add (chosen kind granted) (view_permission kind))

includes-before_order :
    (kind : Kind) (granted : List String) (p : Permission)
    → includes (before_order kind granted) p ≡ (
        includes (chosen kind granted) p
        || view_permission kind == p
        || has_permission (some granted) (files_write_permission kind)
          && files_read_permission kind == p)
unfolding before_order
includes-before_order kind granted p =
    let write = files_write_permission kind in
    let out = add (chosen kind granted) (view_permission kind) in
    ground (
      arith,
      includes-add_files_read kind out p,
      includes-add (chosen kind granted) (view_permission kind) p,
      includes-add (chosen kind granted) (view_permission kind) write,
      includes-chosen kind granted write,
      view_not_write kind,
      write_listed kind,
      is_permission-guest_ids kind write,
    )

normalize-ordered :
    (kind : Kind) (granted : List String) (p : Permission)
    → includes (normalize_guest_permissions kind granted) p
      ≡ (is_permission p && includes (before_order kind granted) p)
unfolding normalize_guest_permissions is_permission before_order chosen guest_ids
normalize-ordered kind granted p = includes-filter _ permissions p

-- A normalised guest grant holds what the list permits of the guest permissions of the kind, always
-- the view permission, and the permission to read files where the list permits to write them.
pub includes-normalize_guest_permissions :
    (kind : Kind) (granted : List String) (p : Permission)
    → includes (normalize_guest_permissions kind granted) p ≡ (
        includes (guest_ids kind) p
        && (has_permission (some granted) p
            || view_permission kind == p
            || files_read_permission kind == p
              && has_permission (some granted) (files_write_permission kind)))
includes-normalize_guest_permissions kind granted p = ground (
  arith,
  normalize-ordered kind granted p,
  includes-before_order kind granted p,
  includes-chosen kind granted p,
  is_permission-guest_ids kind p,
  view_listed kind,
  read_listed kind,
  eq_iff (view_permission kind) p,
  eq_iff (files_read_permission kind) p,
)

pub normalize-known :
    (kind : Kind) (granted : List String)
    → All (λ p. is_permission p ≡ true) (normalize_guest_permissions kind granted)
normalize-known kind granted =
    All-of_includes _ (normalize_guest_permissions kind granted)
      (λ p m. ground (arith, normalize-ordered kind granted p))

-- A normalised guest grant stays within the guest permissions of its kind, always permits to see the
-- guest, and permits to read files where it permits to write them.
pub normalize_guest_permissions_bounds :
    (kind : Kind) (granted : List String)
    → let grant = normalize_guest_permissions kind granted in
      ((p : Permission) → has_permission (some grant) p ≡ true → includes (guest_ids kind) p ≡ true)
      × (has_permission (some grant) (view_permission kind) ≡ true)
      × (has_permission (some grant) (files_write_permission kind) ≡ true
          → has_permission (some grant) (files_read_permission kind) ≡ true)
normalize_guest_permissions_bounds kind granted = (
  λ p h. ground (arith, known p, law p),
  ground (arith, known view, law view, view_listed kind, ==_refl view),
  λ h. ground (
    arith,
    known write,
    known read,
    law write,
    law read,
    read_listed kind,
    ==_refl read,
    eq_iff view write,
    eq_iff read write,
    view_not_write kind,
  ),
)
  where
    view : Permission
    view = view_permission kind

    read : Permission
    read = files_read_permission kind

    write : Permission
    write = files_write_permission kind

    known :
        (p : Permission)
        → has_permission (some (normalize_guest_permissions kind granted)) p
          ≡ includes (normalize_guest_permissions kind granted) p
    known p = has_permission-known _ p (normalize-known kind granted)

    law :
        (p : Permission)
        → includes (normalize_guest_permissions kind granted) p ≡ (
            includes (guest_ids kind) p
            && (has_permission (some granted) p
                || view_permission kind == p
                || files_read_permission kind == p
                  && has_permission (some granted) (files_write_permission kind)))
    law p = includes-normalize_guest_permissions kind granted p

normalize_again :
    (kind : Kind) (granted : List String) (p : Permission)
    → includes (normalize_guest_permissions kind (normalize_guest_permissions kind granted)) p
      ≡ includes (normalize_guest_permissions kind granted) p
normalize_again kind granted p =
    let grant = normalize_guest_permissions kind granted in
    let write = files_write_permission kind in
    ground (
      arith,
      includes-normalize_guest_permissions kind grant p,
      includes-normalize_guest_permissions kind granted p,
      includes-normalize_guest_permissions kind granted write,
      has_permission-known grant p (normalize-known kind granted),
      has_permission-known grant write (normalize-known kind granted),
      eq_iff (view_permission kind) write,
      eq_iff (files_read_permission kind) write,
      view_not_write kind,
      read_not_write kind,
    )

before_order_again :
    (kind : Kind) (granted : List String) (p : Permission)
    → is_permission p ≡ true
    → includes (before_order kind (normalize_guest_permissions kind granted)) p
      ≡ includes (before_order kind granted) p
before_order_again kind granted p h = ground (
  arith,
  normalize_again kind granted p,
  normalize-ordered kind granted p,
  normalize-ordered kind (normalize_guest_permissions kind granted) p,
)

-- Normalising a guest grant a second time changes nothing.
pub normalize_guest_permissions_idempotent :
    (kind : Kind) (granted : List String)
    → normalize_guest_permissions kind (normalize_guest_permissions kind granted)
      ≡ normalize_guest_permissions kind granted
unfolding normalize_guest_permissions before_order chosen guest_ids is_permission
normalize_guest_permissions_idempotent kind granted =
    filter_congr _ _ permissions
      (All-of_includes _ permissions (λ p m. before_order_again kind granted p m))

-- A normalised guest grant is sanitised.
pub sanitize_permissions-normalize :
    (kind : Kind) (granted : List String)
    → sanitize_permissions (normalize_guest_permissions kind granted)
      ≡ normalize_guest_permissions kind granted
unfolding sanitize_permissions normalize_guest_permissions before_order chosen guest_ids
    is_permission has_permission
sanitize_permissions-normalize kind granted = filter_congr _ _ permissions (
    All-of_includes _ permissions (λ p m. ground (
      arith,
      has_permission-known (normalize_guest_permissions kind granted) p
          (normalize-known kind granted),
      normalize-ordered kind granted p,
    )))
