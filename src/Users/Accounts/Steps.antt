-- ===== src/Users/Accounts/Steps.antt =====
-- What the steps of an update keep.
use proxora.Common.{
  String, List, [], true, Option, none, some, ◌≡◌, refl, arith, Bool-cases, inl, inr, ◌||◌, ◌⊎◌,
  string_eq,
}
use proxora.Scope.{HostAccessGrant, GuestAccessGrant}
use proxora.Database.{Database, UserRow, find_role}
use proxora.Database.Run.{
  query, done, failed, require-keeps, require-cases, and_then-keeps, found-keeps,
}
use proxora.Users.{GuestGrantInput, is_given}
use proxora.Users.Accounts.{
  UpdateUserInput, set_user, write_hosts, write_guests, update_hosts, update_guests, update_access,
  columns, update_columns,
}

-- A change of the columns that no relation is about.
abbrev pub IsInner : (UserRow → UserRow) → Type 0
IsInner change = (u : UserRow) → ((change u).id ≡ u.id) × ((change u).role_id ≡ u.role_id)

module _ {κ} (P : Database → Type κ) (id : String)
    (set : (change : UserRow → UserRow) (now : Database)
      → IsInner change
      → P now
      → P (set_user id change now)) where
  write_hosts-keeps :
      (rows : List HostAccessGrant) (now : Database) → P now → P (write_hosts id rows now).1
  unfolding write_hosts
  write_hosts-keeps rows now kept =
      let cleared = set (λ u. record u { host_access = [] }) now (λ u. (refl, refl)) kept in
      require-keeps P _ _ _ _ cleared (λ _. set _ _ (λ u. (refl, refl)) cleared)

  write_guests-keeps :
      (rows : List GuestAccessGrant) (now : Database) → P now → P (write_guests id rows now).1
  unfolding write_guests
  write_guests-keeps rows now kept =
      let cleared = set (λ u. record u { guest_access = [] }) now (λ u. (refl, refl)) kept in
      require-keeps P _ _ _ _ cleared (λ _. set _ _ (λ u. (refl, refl)) cleared)

  update_hosts-keeps :
      (input : UpdateUserInput) (now : Database) → P now → P (update_hosts id input now).1
  unfolding update_hosts
  update_hosts-keeps input now kept =
      elim (Bool-cases (is_given input.hosts || is_given input.host_ids)) [
        | inl given ↦ rw given (write_hosts-keeps _ now kept)
        | inr absent ↦ rw absent kept
      ]

  update_guests-keeps :
      (guests : Option (List GuestGrantInput)) (now : Database)
      → P now
      → P (update_guests id guests now).1
  unfolding update_guests
  update_guests-keeps none now kept = kept
  update_guests-keeps (some guests) now kept = write_guests-keeps _ now kept

  pub update_access-keeps :
      (input : UpdateUserInput) (now : Database) → P now → P (update_access id input now).1
  unfolding update_access
  update_access-keeps input now kept =
      and_then-keeps P _ _ (update_hosts-keeps input now kept) (λ _ a ka.
        and_then-keeps P _ _ (update_guests-keeps input.guests a ka)
          (λ _ b kb. found-keeps P _ _ _ _ kb (λ u _. found-keeps P _ _ _ _ kb (λ _ _. kb))))

-- The columns are written, or nothing is.
pub update_columns-cases :
    (hash_password : String → String) (id : String) (input : UpdateUserInput) (user : UserRow)
    (db : Database)
    → (update_columns hash_password id input user db ≡ (failed query, db))
      ⊎ ((is_given (find_role (columns hash_password input user).role_id db) ≡ true)
          × (update_columns hash_password id input user db
              ≡ (done tt, set_user id (columns hash_password input) db)))
unfolding update_columns
update_columns-cases hash_password id input user db = elim (require-cases _ _ _ _) [
  | inl refused ↦ inl refused
  | inr passed ↦ inr (ground (arith, passed.0), passed.1)
]
