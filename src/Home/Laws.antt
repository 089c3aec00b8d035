-- ===== src/Home/Laws.antt =====
-- Where users end up.
use proxora.Common.{
  ℕ, zero, suc, ◌≤◌, length, [], ◌∷◌, Bool, true, false, not, Option, none, some, Bool-cases, ◌≡◌,
  ◌≢◌, trim, length-trim, nat_eq, ◌↔◌, ◌⊎◌, inl, inr, if_cases, refl, arith, subst, sym,
  if◌then◌else◌, codes_eq, Codes, codes, starts_with, contains, ◌&&◌, ◌||◌, ◌==◌,
}
use proxora.Home.{
  HomeUser, may, home_path_for_user, resolve_post_login_path, page_redirect, safe_next_path,
  path_part, login_redirect, zfs_redirect, security_redirect, notifications_redirect,
}

abbrev is_none : Option Codes → Bool
is_none none = true
is_none (some target) = false

abbrev onward : (Codes → Bool) → Option Codes → Bool
onward arrives none = true
onward arrives (some target) = arrives target

unfoldable pub sees_a_page : HomeUser → Bool
sees_a_page user = may user "hosts.view" || may user "lxc.view" || may user "vm.view"

-- The home page of a user redirects no further exactly if the user may see hosts, containers or virtual machines. The
-- page of any other user is the dashboard, which redirects to itself.
pub home_path_for_user-settles :
    (next_of : Codes → Codes) (user : HomeUser)
    → (page_redirect next_of user (home_path_for_user user) ≡ none) ↔ (sees_a_page user ≡ true)
unfolding page_redirect path_part home_path_for_user sees_a_page starts_with
home_path_for_user-settles next_of user = ground arith

-- Whether a user comes to a page from an address, with so many redirects at most.
unfoldable pub arrives : (next_of : Codes → Codes) → HomeUser → (redirects : ℕ) → Codes → Bool
arrives next_of user zero address = is_none (page_redirect next_of user address)
arrives next_of user (suc n) address =
    onward (arrives next_of user n) (page_redirect next_of user address)

stays_there :
    (next_of : Codes → Codes) (user : HomeUser) (n : ℕ) (address : Codes)
    → page_redirect next_of user address ≡ none
    → arrives next_of user n address ≡ true
unfolding arrives
stays_there next_of user zero address h = rw h refl
stays_there next_of user (suc n) address h = rw h refl

goes_on :
    (next_of : Codes → Codes) (user : HomeUser) (n : ℕ) (address target : Codes)
    → page_redirect next_of user address ≡ some target
    → arrives next_of user n target ≡ true
    → arrives next_of user (suc n) address ≡ true
unfolding arrives
goes_on next_of user n address target h there = rw h there

safe_next_path-cases :
    (value : Codes)
    → (safe_next_path value (codes "/dashboard") ≡ codes "/dashboard")
      ⊎ ((safe_next_path value (codes "/dashboard") ≡ trim value) × (value ≢ []))
unfolding safe_next_path
safe_next_path-cases value = ground arith

resolve_post_login_path-cases :
    (user : HomeUser) (next : Codes)
    → (resolve_post_login_path user next ≡ home_path_for_user user)
      ⊎ ((resolve_post_login_path user next ≡ next) × (next ≢ codes "/dashboard"))
unfolding resolve_post_login_path
resolve_post_login_path-cases user next = ground arith

-- The sign-in page sends a user home or to what the address asks for, which is shorter.
login_target :
    (user : HomeUser) (value : Codes) (n : ℕ)
    → ((value ≡ []) ⊎ (suc (length value) ≤ n))
    → let target = resolve_post_login_path user (safe_next_path value (codes "/dashboard")) in
      (target ≡ home_path_for_user user) ⊎ (suc (length target) ≤ n)
login_target user value n h = ground (
  arith,
  resolve_post_login_path-cases user (safe_next_path value (codes "/dashboard")),
  safe_next_path-cases value,
  length-trim value,
)

page_redirect-cases :
    (next_of : Codes → Codes) (user : HomeUser) (address : Codes)
    → let goes = page_redirect next_of user address in
      (goes ≡ none)
      ⊎ (goes ≡ some (home_path_for_user user))
      ⊎ (goes ≡ zfs_redirect)
      ⊎ (goes ≡ security_redirect)
      ⊎ (goes ≡ notifications_redirect)
      ⊎ ((path_part address ≡ codes "/login") × (goes ≡ login_redirect user (next_of address)))
unfolding page_redirect
page_redirect-cases next_of user address = ground arith

-- The value of `next` is shorter than the address that it stands in.
unfoldable pub IsQuery : (next_of : Codes → Codes) → Type 0
IsQuery next_of =
    (address : Codes) → (next_of address ≡ []) ⊎ (suc (length (next_of address)) ≤ length address)

module _ (next_of : Codes → Codes) (user : HomeUser) (sees : sees_a_page user ≡ true) where
  home_stays : (n : ℕ) → arrives next_of user n (home_path_for_user user) ≡ true
  home_stays n =
      stays_there next_of user n (home_path_for_user user)
        ((home_path_for_user-settles next_of user).1 sees)

  -- From an address that is not of the sign-in page, and from that page if each shorter address arrives.
  arrives-step :
      (n : ℕ) (address : Codes)
      → ((path_part address ≡ codes "/login")
          → arrives next_of user n
              (resolve_post_login_path user (safe_next_path (next_of address) (codes "/dashboard")))
            ≡ true)
      → arrives next_of user (suc n) address ≡ true
  unfolding page_redirect path_part starts_with
  arrives-step n address login = elim (page_redirect-cases next_of user address) [
    | inl stays ↦ stays_there next_of user (suc n) address stays
    | inr (inl home) ↦ goes_on next_of user n address _ home (home_stays n)
    | inr (inr (inl zfs)) ↦
        goes_on next_of user n address _ zfs (stays_there next_of user n (codes "/storage") refl)
    | inr (inr (inr (inl security))) ↦
        goes_on next_of user n address _ security
          (stays_there next_of user n (codes "/settings") refl)
    | inr (inr (inr (inr (inl notifications)))) ↦
        goes_on next_of user n address _ notifications
          (stays_there next_of user n (codes "/settings#webhooks") refl)
    | inr (inr (inr (inr (inr (at_login, goes))))) ↦
        goes_on next_of user n address _ goes (login at_login)
  ]

  -- Enough redirects for an address of that length.
  arrives-length :
      (n : ℕ) (address : Codes)
      → IsQuery next_of
      → length address ≤ n
      → arrives next_of user (suc n) address ≡ true
  unfolding IsQuery path_part
  arrives-length zero [] short bound = arrives-step zero [] (λ at_login. cc)
  arrives-length zero (c ∷ address) short bound = ground arith
  arrives-length (suc n) address short bound = arrives-step (suc n) address (λ at_login.
      elim (login_target user (next_of address) (length address) (short address)) [
        | inl home ↦
            subst (λ target. arrives next_of user (suc n) target ≡ true) (sym home)
              (home_stays (suc n))
        | inr shorter ↦ arrives-length n _ short (omega arith)
      ])

-- How many redirects an address needs at most.
abbrev pub redirects_within : (address : Codes) → ℕ
redirects_within address = if path_part address == codes "/login" then suc (length address) else 1

-- A signed-in user that may see hosts, containers or virtual machines comes to a page. One redirect is
-- enough, but from the sign-in page, which may send him to itself for what `next` asks for; there the length
-- of the address and one are enough, if the value of `next` is shorter than its address.
pub page_redirect-settles :
    (next_of : Codes → Codes) (user : HomeUser) (address : Codes)
    → IsQuery next_of
    → sees_a_page user ≡ true
    → arrives next_of user (redirects_within address) address ≡ true
page_redirect-settles next_of user address short sees =
    elim (Bool-cases (path_part address == codes "/login")) [
      | inl login ↦
          rw login (arrives-length next_of user sees (length address) address short (omega arith))
      | inr other ↦ rw other (arrives-step next_of user sees 0 address (λ at_login. ground arith))
    ]

-- A path on this server: one slash at the begin, and no backslash.
unfoldable pub is_local : Codes → Bool
is_local path =
    starts_with (codes "/") path
    && not (starts_with (codes "//") path)
    && not (contains (codes "\\") path)

home_path-is_local : (user : HomeUser) → is_local (home_path_for_user user) ≡ true
unfolding is_local home_path_for_user starts_with contains
home_path-is_local user = ground arith

safe_next_path-is_local :
    (value fallback : Codes)
    → is_local fallback ≡ true
    → is_local (safe_next_path value fallback) ≡ true
unfolding is_local safe_next_path
safe_next_path-is_local value fallback h = ground arith

-- After the login, whatever the address asks for, the browser is sent to a path that begins with one
-- slash and has no backslash.
pub resolve_post_login_path-is_local :
    (user : HomeUser) (value : Codes)
    → is_local (resolve_post_login_path user (safe_next_path value (codes "/dashboard"))) ≡ true
unfolding resolve_post_login_path starts_with contains is_local
resolve_post_login_path-is_local user value =
    let next = safe_next_path value (codes "/dashboard") in
    if_cases (λ p. is_local p ≡ true) (next == codes "/" || next == codes "/dashboard") _ _
      (λ yes. home_path-is_local user)
      (λ no.
        if_cases (λ p. is_local p ≡ true)
          ((next == codes "/hosts" || starts_with (codes "/hosts/") next)
            && not (may user "hosts.view"))
          _ _ (λ yes. home_path-is_local user)
          (λ no. safe_next_path-is_local value (codes "/dashboard") refl))
