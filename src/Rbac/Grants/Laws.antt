-- ===== src/Rbac/Grants/Laws.antt =====
-- What expansion and sanitising of a list of granted strings mean.
use proxora.Common.{
  String, List, [], ◌∷◌, Bool, true, false, Option, none, some, ◌≡◌, refl, ◌∙◌, arith, any, all,
  All, includes, add, lookup, ◌||◌, ◌&&◌, ◌==◌, string_eq, includes-add, includes-add_all,
  includes-filter, all-includes, All-of_includes, filter_congr,
}
use proxora.Rbac.Catalog.{Permission, permissions, legacy_permission_aliases}
use proxora.Rbac.Grants.{
  add_extra, expand_from, expand_permissions, is_permission, sanitize_permissions, has_permission,
  has_any_permission,
}

abbrev lists : Option (List Permission) → Permission → Bool
lists none p = false
lists (some extra) p = includes extra p

-- A granted string stands for itself and, if it is a legacy name, for the permissions of that name.
abbrev pub covers : Permission → String → Bool
covers p raw = raw == p || lists (lookup raw legacy_permission_aliases) p

includes-add_extra :
    (out : List String) (extra : Option (List Permission)) (p : Permission)
    → includes (add_extra out extra) p ≡ (includes out p || lists extra p)
unfolding add_extra
includes-add_extra out none p = ground arith
includes-add_extra out (some extra) p = includes-add_all out extra p

includes-expand_from :
    (out granted : List String) (p : Permission)
    → includes (expand_from out granted) p ≡ (includes out p || any (covers p) granted)
unfolding expand_from
includes-expand_from out [] p = ground arith
includes-expand_from out (raw ∷ granted) p =
    let extra = lookup raw legacy_permission_aliases in
    ground (
      arith,
      includes-expand_from (add_extra (add out raw) extra) granted p,
      includes-add_extra (add out raw) extra p,
      includes-add out raw p,
    )

-- A list of granted strings permits `p` exactly if some string of it covers `p`.
pub has_permission-eq-any :
    (granted : List String) (p : Permission)
    → has_permission (some granted) p ≡ any (covers p) granted
unfolding has_permission expand_permissions includes
has_permission-eq-any granted p = includes-expand_from [] granted p

abbrev is_current : String → Bool
is_current p = elim (lookup p legacy_permission_aliases) [ none ↦ true | some _ ↦ false ]

permissions_current : all is_current permissions ≡ true
unfolding permissions legacy_permission_aliases lookup
permissions_current = refl

-- No permission is also a legacy name.
lookup_permission :
    (p : Permission) → includes permissions p ≡ true → lookup p legacy_permission_aliases ≡ none
lookup_permission p h =
    let current = all-includes is_current permissions p permissions_current h in ground arith

covers_permission : (p raw : Permission) → includes permissions raw ≡ true → covers p raw ≡ raw == p
covers_permission p raw h = ground (arith, lookup_permission raw h)

any-covers :
    (p : Permission) (granted : List Permission)
    → All (λ raw. includes permissions raw ≡ true) granted
    → any (covers p) granted ≡ includes granted p
unfolding includes
any-covers p [] h = refl
any-covers p (raw ∷ granted) h =
    ground (arith, covers_permission p raw h.0, any-covers p granted h.1)

-- The permissions of a sanitised list are the known permissions that the list permits.
pub includes-sanitize_permissions :
    (values : List String) (p : Permission)
    → includes (sanitize_permissions values) p ≡ (is_permission p && has_permission (some values) p)
unfolding sanitize_permissions is_permission has_permission
includes-sanitize_permissions values p =
    includes-filter (includes (expand_permissions (some values))) permissions p

pub sanitize_permissions-All :
    (values : List String) → All (λ p. is_permission p ≡ true) (sanitize_permissions values)
sanitize_permissions-All values =
    All-of_includes (λ p. is_permission p ≡ true) (sanitize_permissions values)
      (λ p m. ground (arith, includes-sanitize_permissions values p))

-- Permissions without legacy names permit themselves only.
pub has_permission-known :
    (granted : List Permission) (p : Permission)
    → All (λ raw. is_permission raw ≡ true) granted
    → has_permission (some granted) p ≡ includes granted p
unfolding is_permission
has_permission-known granted p h = has_permission-eq-any granted p ∙ any-covers p granted h

-- Sanitising drops unknown strings and writes the legacy names out, and so permits the known
-- permissions that the list permitted, and nothing else.
pub has_permission-sanitize_permissions :
    (values : List String) (p : Permission)
    → has_permission (some (sanitize_permissions values)) p
      ≡ (is_permission p && has_permission (some values) p)
has_permission-sanitize_permissions values p =
    has_permission-known (sanitize_permissions values) p (sanitize_permissions-All values)
    ∙ includes-sanitize_permissions values p

pub has_permission-sanitize_known :
    (values : List String) (p : Permission)
    → is_permission p ≡ true
    → has_permission (some (sanitize_permissions values)) p ≡ has_permission (some values) p
has_permission-sanitize_known values p h =
    ground (arith, has_permission-sanitize_permissions values p)

-- Sanitising a second time changes nothing.
pub sanitize_permissions_idempotent :
    (values : List String)
    → sanitize_permissions (sanitize_permissions values) ≡ sanitize_permissions values
unfolding sanitize_permissions has_permission is_permission
sanitize_permissions_idempotent values =
    filter_congr _ _ permissions
      (All-of_includes _ permissions (λ p m. has_permission-sanitize_known values p m))

-- A list permits some permission of `required` exactly if it permits one of them.
pub has_any_permission-eq-any :
    (granted : Option (List String)) (required : List Permission)
    → has_any_permission granted required ≡ any (has_permission granted) required
unfolding has_any_permission has_permission
has_any_permission-eq-any granted required = refl
