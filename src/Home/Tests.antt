-- ===== src/Home/Tests.antt =====
-- Pages that users come to, and the theorems at users.
use proxora.Common.{
  String, List, [], ◌∷◌, none, some, ◌≡◌, ◌↔◌, inl, arith, nat_eq, ◌==◌, if◌then◌else◌, Codes,
  false, refl, true, string_eq, codes, starts_with, contains, trim, trim_start, trim_end, is_space,
  includes, add, lookup,
}
use proxora.Kind.{lxc}
use proxora.Rbac.Catalog.{permissions, permission_catalog, legacy_permission_aliases}
use proxora.Rbac.Grants.{has_permission, expand_permissions, is_permission}
use proxora.Rbac.Guests.{is_host_scoped_permission}
use proxora.Rbac.Holder.{user_has_permission, override_at, some_override_permits}
use proxora.Home.{
  HomeUser, may, home_path_for_user, resolve_post_login_path, page_redirect, safe_next_path,
  path_part,
}
use proxora.Home.Laws.{
  IsQuery, arrives, redirects_within, home_path_for_user-settles, page_redirect-settles,
  sees_a_page, resolve_post_login_path-is_local, is_local,
}

running : Unit {0}
unfolding path_part may home_path_for_user resolve_post_login_path page_redirect safe_next_path
    starts_with contains override_at some_override_permits trim trim_start trim_end is_space
    user_has_permission is_host_scoped_permission has_permission permission_catalog
    expand_permissions lookup add legacy_permission_aliases includes permissions is_permission
    sees_a_page is_local
running = tt

abbrev with_role : List String → HomeUser
with_role granted = record {
  holder = record { role = some granted; host_permissions = none; guest_permissions = none };
  allowed_guests = some (record { host_id = "pve1"; kind = lxc; vmid = 101 } ∷ []);
}

-- `next` of an address with one entry in its query: what stands behind the first `=`.
abbrev behind : Codes → Codes
behind [] = []
behind (c ∷ s) = if c == 61 then s else behind s

behind-IsQuery : IsQuery behind
unfolding IsQuery
behind-IsQuery [] = inl refl
behind-IsQuery (c ∷ s) = ground (arith, behind-IsQuery s)

home_tests :
    (home_path_for_user (with_role ("lxc.view" ∷ [])) ≡ codes "/containers")
    × (home_path_for_user (with_role ("vm.view" ∷ [])) ≡ codes "/vms")
    × (home_path_for_user (with_role ("users.view" ∷ [])) ≡ codes "/dashboard")
    × (page_redirect behind (with_role ("users.view" ∷ [])) (codes "/dashboard")
        ≡ some (codes "/dashboard"))
    × (safe_next_path (codes "//evil.test") (codes "/dashboard") ≡ codes "/dashboard")
    × (safe_next_path (codes " /vms ") (codes "/dashboard") ≡ codes "/vms")
    -- A tab, which browsers remove from an address: what is left begins with two slashes.
    × (safe_next_path (47 ∷ 9 ∷ codes "/evil.test") (codes "/dashboard")
        ≡ 47 ∷ 9 ∷ codes "/evil.test")
unfolding running
home_tests = (refl, refl, refl, refl, refl, refl, refl)

-- Two redirects from the sign-in page: to the page that has moved, and from there.
redirect_tests :
    let user = with_role ("vm.view" ∷ []) in
    (page_redirect behind user (codes "/login?next=/zfs") ≡ some (codes "/zfs"))
    × (page_redirect behind user (codes "/zfs") ≡ some (codes "/storage"))
    × (arrives behind user 1 (codes "/login?next=/zfs") ≡ false)
    × (arrives behind user 2 (codes "/login?next=/zfs") ≡ true)
    × (page_redirect behind user (codes "/hosts/1?tab=2") ≡ some (codes "/vms"))
unfolding running arrives
redirect_tests = (refl, refl, refl, refl, refl)

home_path_for_user-settles_example :
    (page_redirect behind
        (with_role ("vm.view" ∷ []))
        (home_path_for_user (with_role ("vm.view" ∷ [])))
      ≡ none)
    ↔ (sees_a_page (with_role ("vm.view" ∷ [])) ≡ true)
home_path_for_user-settles_example = home_path_for_user-settles behind (with_role ("vm.view" ∷ []))

page_redirect-settles_example :
    arrives behind
      (with_role ("vm.view" ∷ []))
      (redirects_within (codes "/login?next=/login?next=/zfs"))
      (codes "/login?next=/login?next=/zfs")
    ≡ true
unfolding running
page_redirect-settles_example =
    page_redirect-settles behind (with_role ("vm.view" ∷ [])) (codes "/login?next=/login?next=/zfs")
      behind-IsQuery refl

resolve_post_login_path-is_local_example :
    is_local (
      resolve_post_login_path
        (with_role ("vm.view" ∷ []))
        (safe_next_path (codes "//evil.test") (codes "/dashboard")))
    ≡ true
resolve_post_login_path-is_local_example =
    resolve_post_login_path-is_local (with_role ("vm.view" ∷ [])) (codes "//evil.test")
