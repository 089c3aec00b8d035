-- ===== src/Home.antt =====
-- lib/home-path.ts, lib/safe-next.ts, and the redirects of the pages, for a user that is signed in:
-- app/page.tsx, app/login/page.tsx, the layouts of app/(app)/dashboard and app/(app)/hosts, and the pages
-- zfs, settings/security and settings/notifications of app/(app). What the framework redirects itself,
-- such as a path with a slash at its end, is left out.
pub mod Laws
mod Tests
use proxora.Common.{
  List, [], ◌∷◌, Bool, true, false, not, Option, none, some, any, codes_eq, nat_eq, Codes, codes,
  starts_with, contains, trim, ◌&&◌, ◌||◌, ◌==◌, if◌then◌else◌,
}
use proxora.Kind.{Kind, vm, lxc}
use proxora.Scope.{GuestScope}
use proxora.Rbac.Catalog.{Permission}
use proxora.Rbac.Holder.{PermissionHolder, user_has_permission, user_has_any_permission}

-- HomePathUser: what his permissions are taken from, and his guests.
pub record HomeUser : Type 0 where
  pub holder : PermissionHolder
  pub allowed_guests : Option (List GuestScope)

-- `userHasPermission(user, permission)`
unfoldable pub may : HomeUser → Permission → Bool
may user permission = user_has_permission user.holder permission none none

abbrev pub is_lxc : Kind → Bool
is_lxc lxc = true
is_lxc vm = false

abbrev pub is_vm : Kind → Bool
is_vm vm = true
is_vm lxc = false

-- `user.allowedGuests ?? []`
abbrev pub guests_or_none : Option (List GuestScope) → List GuestScope
guests_or_none none = []
guests_or_none (some guests) = guests

unfoldable pub home_path_for_user : HomeUser → Codes
home_path_for_user user =
    let guests = guests_or_none user.allowed_guests in
    if may user "hosts.view"
    then codes "/dashboard"
    else if any (λ (g : GuestScope). is_lxc g.kind) guests && may user "lxc.view"
    then codes "/containers"
    else if any (λ (g : GuestScope). is_vm g.kind) guests && may user "vm.view"
    then codes "/vms"
    else if may user "lxc.view"
    then codes "/containers"
    else if may user "vm.view"
    then codes "/vms"
    else codes "/dashboard"

unfoldable pub resolve_post_login_path : HomeUser → (next : Codes) → Codes
resolve_post_login_path user next =
    if next == codes "/" || next == codes "/dashboard"
    then home_path_for_user user
    else if (next == codes "/hosts" || starts_with (codes "/hosts/") next)
        && not (may user "hosts.view")
    then home_path_for_user user
    else next

abbrev visible_guests : HomeUser → (href : Codes) → List GuestScope → Bool
visible_guests user href [] = href == home_path_for_user user
visible_guests user href (g ∷ guests) =
    if href == codes "/vms"
    then any (λ (g : GuestScope). is_vm g.kind) (g ∷ guests)
    else any (λ (g : GuestScope). is_lxc g.kind) (g ∷ guests)

unfoldable pub nav_item_visible : HomeUser → (href : Codes) → List Permission → Bool
nav_item_visible user href any_of =
    if not (user_has_any_permission user.holder any_of none none)
    then false
    else if (href == codes "/vms" || href == codes "/containers") && not (may user "hosts.view")
    then visible_guests user href (guests_or_none user.allowed_guests)
    else true

-- A value that is not given is the empty text, which the code treats alike.
unfoldable pub safe_next_path : (value fallback : Codes) → Codes
safe_next_path value fallback =
    let trimmed = trim value in
    if value == []
    then fallback
    else if not (starts_with (codes "/") trimmed)
    then fallback
    else if starts_with (codes "//") trimmed || starts_with (codes "/\\") trimmed
    then fallback
    else if contains (codes "://") trimmed || contains (codes "\\") trimmed
    then fallback
    else trimmed

-- `app/page.tsx`, for a user that is signed in
abbrev pub root_redirect : HomeUser → Option Codes
root_redirect user = some (home_path_for_user user)

-- The layouts of the dashboard and of the hosts.
abbrev pub layout_redirect : HomeUser → Option Codes
layout_redirect user = if may user "hosts.view" then none else some (home_path_for_user user)

-- The sign-in page, for a user that is signed in and the value of `next`.
abbrev pub login_redirect : HomeUser → (next : Codes) → Option Codes
login_redirect user next =
    some (resolve_post_login_path user (safe_next_path next (codes "/dashboard")))

-- Pages that have moved.
abbrev pub zfs_redirect : Option Codes
zfs_redirect = some (codes "/storage")

abbrev pub security_redirect : Option Codes
security_redirect = some (codes "/settings")

abbrev pub notifications_redirect : Option Codes
notifications_redirect = some (codes "/settings#webhooks")

-- The path of an address: what comes before the first `?` or `#`.
unfoldable pub path_part : Codes → Codes
path_part [] = []
path_part (c ∷ s) = if c == 63 || c == 35 then [] else c ∷ path_part s

-- Where the page of an address sends a user that is signed in, or nowhere. The framework reads `next`
-- from the address, and none is the empty text.
unfoldable pub page_redirect :
    (next_of : Codes → Codes) → HomeUser → (address : Codes) → Option Codes
page_redirect next_of user address =
    let page = path_part address in
    if page == codes "/"
    then root_redirect user
    else if page == codes "/login"
    then login_redirect user (next_of address)
    else if page == codes "/dashboard"
        || page == codes "/hosts"
        || starts_with (codes "/hosts/") page
    then layout_redirect user
    else if page == codes "/zfs"
    then zfs_redirect
    else if page == codes "/settings/security"
    then security_redirect
    else if page == codes "/settings/notifications"
    then notifications_redirect
    else none
