-- ===== src/Scope/Access.antt =====
-- Who may see which host and guest.
use proxora.Common.{
  ℕ, String, List, [], ◌∷◌, true, false, Option, none, some, ◌≡◌, refl, sym, ap, ◌∙◌, arith, map,
  any, filter, filter_congr, All-of_forall, includes, includes-unique, string_eq, nat_eq, ◌&&◌,
  ◌==◌, Bool-cases, inl, inr,
}
use proxora.Kind.{Kind, kind_eq}
use proxora.Scope.{
  GuestScope, AccessScope, can_access_host, can_access_guest, is_guest, guest_allowed,
  filter_guests_for_user, among_guests,
}

includes-vmids :
    (host_id : String) (kind : Kind) (vmid : ℕ) (guests : List GuestScope)
    → includes
        (map (λ g. g.vmid) (filter (λ g. g.host_id == host_id && g.kind == kind) guests))
        vmid
      ≡ any (is_guest host_id kind vmid) guests
unfolding includes
includes-vmids host_id kind vmid [] = refl
includes-vmids host_id kind vmid (g ∷ guests) =
    ground (arith, includes-vmids host_id kind vmid guests)

filter_none {ℓ} : {A : Type ℓ} (xs : List A) → filter (λ x. false) xs ≡ []
filter_none [] = refl
filter_none (x ∷ xs) = filter_none xs

filter_all {ℓ} : {A : Type ℓ} (xs : List A) → filter (λ x. true) xs ≡ xs
filter_all [] = refl
filter_all (x ∷ xs) = ap (◌∷◌ x) (filter_all xs)

module _ {ℓ} {T : Type ℓ} (vmid_of : T → ℕ) (host_id : String) (kind : Kind) (items : List T) where
  among_guests-filter :
      (allowed : Option (List GuestScope))
      → among_guests vmid_of allowed host_id kind items
        ≡ filter (λ item. guest_allowed allowed host_id kind (vmid_of item)) items
  unfolding among_guests
  among_guests-filter none = sym (filter_all items)
  among_guests-filter (some guests) = filter_congr _ _ items (
      All-of_forall
        (λ item.
          includes-unique (map (λ g. g.vmid) _) (vmid_of item)
          ∙ includes-vmids host_id kind (vmid_of item) guests)
        items)

  -- The list that a user is shown holds exactly the items that the user may access one by one, in
  -- their order.
  pub filter_guests_for_user-filter :
      (user : AccessScope)
      → filter_guests_for_user vmid_of user host_id kind items
        ≡ filter (λ item. can_access_guest user host_id kind (vmid_of item)) items
  unfolding filter_guests_for_user can_access_guest
  filter_guests_for_user-filter user = elim (Bool-cases (can_access_host user host_id)) [
    | inl seen ↦ rw seen (among_guests-filter user.allowed_guests)
    | inr unseen ↦ rw unseen (sym (filter_none items))
  ]
