-- ===== src/Rbac/Presets/Laws.antt =====
-- The shipped roles and the permissions of actions.
use proxora.Common.{
  lookup, add, all-includes, ◌⊎◌, inl, inr, if_cases, String, List, [], ◌∷◌, Bool, true, false, not,
  Option, some, ◌≡◌, refl, arith, all, includes, string_eq, ◌||◌, ◌&&◌, ◌==◌, ◌⧺◌,
}
use proxora.Kind.{Kind, vm, lxc, kind_name}
use proxora.Rbac.Catalog.{Permission, permissions, permission_catalog, legacy_permission_aliases}
use proxora.Rbac.Grants.{expand_permissions, is_permission, has_permission}
use proxora.Rbac.Guests.{guest_grant_catalog, is_guest_action_permission, is_host_scoped_permission}
use proxora.Rbac.Guests.Laws.{guest_ids}
use text.Mathlib.Text.{starts_with}
use proxora.Rbac.Holder.{PermissionHolder, GuestPermissionRef, user_has_permission}
use proxora.Rbac.Presets.{administrator_permissions, permission_for_guest_action}

abbrev IsGuestId : Kind → Permission → Type 0
IsGuestId kind p = includes (guest_ids kind) p ≡ true

-- the names that an action's permission can have behind the kind's prefix
abbrev suffixes : List String
suffixes =
    ".start" ∷ ".force-stop" ∷ ".shutdown" ∷ ".reboot" ∷ ".delete" ∷ ".clone" ∷ ".migrate"
    ∷ ".snapshot.create" ∷ ".snapshot.delete" ∷ ".snapshot.rollback" ∷ ".config" ∷ ".view" ∷ []

abbrev is_guest_id : Kind → Permission → Bool
is_guest_id kind p = includes (guest_ids kind) p

suffixes_table : (kind : Kind) → all (λ s. is_guest_id kind (kind_name kind ⧺ s)) suffixes ≡ true
unfolding guest_ids guest_grant_catalog permission_catalog is_guest_action_permission includes
    kind_name
suffixes_table vm = refl
suffixes_table lxc = refl

suffix_listed :
    (kind : Kind) (s : String)
    → includes suffixes s ≡ true
    → is_guest_id kind (kind_name kind ⧺ s) ≡ true
suffix_listed kind s h =
    all-includes (λ t. is_guest_id kind (kind_name kind ⧺ t)) suffixes s (suffixes_table kind) h

abbrev power_permissions : List Permission
power_permissions = "vm.reset" ∷ "vm.pause" ∷ "vm.resume" ∷ []

power_table : all (is_guest_id vm) power_permissions ≡ true
unfolding guest_ids guest_grant_catalog permission_catalog is_guest_action_permission includes
power_table = refl

abbrev machines_only : String → Bool
machines_only action = action == "reset" || action == "pause" || action == "resume"

-- A permission that can be granted on guests of the kind, or one for machines that the action needs.
abbrev pub IsGrantable : Kind → String → Permission → Type 0
IsGrantable kind action needed =
    (includes (guest_ids kind) needed ≡ true)
    ⊎ ((machines_only action ≡ true) × (includes (guest_ids vm) needed ≡ true))

-- The results of `permissionForGuestAction`, case by case.
action_cases :
    (P : Permission → Type 0) (kind : Kind) (action : String)
    → ((s : String) → includes suffixes s ≡ true → P (kind_name kind ⧺ s))
    → (action == "reset" ≡ true → P "vm.reset")
    → (action == "pause" ≡ true → P "vm.pause")
    → (action == "resume" ≡ true → P "vm.resume")
    → P (permission_for_guest_action kind action)
unfolding permission_for_guest_action includes
action_cases P kind action own reset pause resume =
    if_cases P (action == "start" || action == "sendkey" || action == "nudge-cd-boot") _ _
      (λ _. own ".start" refl)
      λ _.
        if_cases P (action == "stop") _ _ (λ _. own ".force-stop" refl)
          λ _.
            if_cases P (action == "shutdown") _ _ (λ _. own ".shutdown" refl)
              λ _.
                if_cases P (action == "reboot") _ _ (λ _. own ".reboot" refl)
                  λ _. if_cases P (action == "reset") _ _ reset λ _.
                    if_cases P (action == "pause") _ _ pause λ _.
                      if_cases P (action == "resume") _ _ resume λ _.
                        if_cases P (action == "delete") _ _ (λ _. own ".delete" refl)
                          λ _.
                            if_cases P (action == "clone") _ _ (λ _. own ".clone" refl)
                              λ _.
                                if_cases P (action == "migrate") _ _ (λ _. own ".migrate" refl)
                                  λ _.
                                    if_cases P (action == "snapshot") _ _
                                      (λ _. own ".snapshot.create" refl)
                                      λ _.
                                        if_cases P (action == "snapshot-delete") _ _
                                          (λ _. own ".snapshot.delete" refl)
                                          λ _.
                                            if_cases P (action == "snapshot-rollback") _ _
                                              (λ _. own ".snapshot.rollback" refl)
                                              λ _.
                                                if_cases P
                                                  (action == "config" || action == "resize") _ _
                                                  (λ _. own ".config" refl) λ _. own ".view" refl

power_listed : (p : Permission) → includes power_permissions p ≡ true → is_guest_id vm p ≡ true
power_listed p h = all-includes (is_guest_id vm) power_permissions p power_table h

-- Every action on a guest, known or not, needs a permission that can be granted on guests of its
-- kind; only a reset, a pause or a resume may need one that can be granted on machines only.
pub permission_for_guest_action-IsGrantable :
    (kind : Kind) (action : String)
    → IsGrantable kind action (permission_for_guest_action kind action)
unfolding includes
permission_for_guest_action-IsGrantable kind action =
    action_cases (IsGrantable kind action) kind action (λ s h. inl (suffix_listed kind s h))
      (λ h. inr (ground arith, power_listed "vm.reset" refl))
      (λ h. inr (ground arith, power_listed "vm.pause" refl))
      (λ h. inr (ground arith, power_listed "vm.resume" refl))

-- What the Administrator role leaves to the Super Admin.
abbrev pub is_reserved : Permission → Bool
is_reserved p =
    starts_with p "users."
    || starts_with p "roles."
    || starts_with p "notifications."
    || p == "settings.update"
    || p == "proxora.update"

abbrev reserved_is_out_of_reach : Permission → Bool
reserved_is_out_of_reach p =
    not (is_reserved p)
    || not (is_host_scoped_permission p) && not (has_permission (some administrator_permissions) p)

reserved_table : all reserved_is_out_of_reach permissions ≡ true
unfolding permissions permission_catalog is_host_scoped_permission has_permission
    administrator_permissions legacy_permission_aliases includes expand_permissions lookup add
reserved_table = refl

-- An administrator cannot manage users, roles or notifications, change the settings or update
-- Proxora, whatever overrides for hosts and guests come with the account.
pub administrator-reserved :
    (holder : PermissionHolder) (required : Permission) (host_id : Option String)
    (guest : Option GuestPermissionRef)
    → holder.role ≡ some administrator_permissions
    → is_permission required ≡ true
    → is_reserved required ≡ true
    → user_has_permission holder required host_id guest ≡ false
unfolding user_has_permission is_permission
administrator-reserved holder required host_id guest role known reserved =
    let out = all-includes reserved_is_out_of_reach permissions required reserved_table known in
    ground arith
