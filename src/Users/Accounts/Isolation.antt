-- ===== src/Users/Accounts/Isolation.antt =====
-- What the operations on one user leave alone.
use text.Mathlib.TextEquality.{eq_iff}
use proxora.Common.{
  String, List, [], ◌∷◌, not, ◌≡◌, ◌≢◌, refl, arith, map, filter, string_eq, ◌==◌, if◌then◌else◌,
  Bool-cases, inl, inr, ◌∙◌,
}
use proxora.Database.{Database, UserRow, SessionRow, find_user, find_first, delete_sessions}
use proxora.Database.Run.{and_then-keeps, found-keeps, require-keeps}
use proxora.Session.{destroy_user_sessions}
use proxora.Users.Accounts.Steps.{update_access-keeps}
use proxora.Users.Accounts.{
  UpdateUserInput, set_user, columns, update_columns, signed_out, ends_sessions, update_user,
}

abbrev pub sessions_of : String → Database → List SessionRow
sessions_of id db = filter (λ s. s.user_id == id) db.sessions

pub IsUntouched : String → (db after : Database) → Type 0
IsUntouched other db after =
    (find_user other after ≡ find_user other db) × (sessions_of other after ≡ sessions_of other db)

find_first-set_user :
    (id other : String) (change : UserRow → UserRow) (users : List UserRow)
    → id ≢ other
    → ((u : UserRow) → (change u).id ≡ u.id)
    → find_first (λ u. u.id == other) (map (λ u. if u.id == id then change u else u) users)
      ≡ find_first (λ u. u.id == other) users
unfolding find_first
find_first-set_user id other change [] differ same = refl
find_first-set_user id other change (u ∷ users) differ same = ground (
  arith,
  find_first-set_user id other change users differ same,
  same u,
  eq_iff u.id id,
  eq_iff u.id other,
  eq_iff (change u).id other,
)

filter-delete_sessions :
    (id other : String) (sessions : List SessionRow)
    → id ≢ other
    → filter (λ s. s.user_id == other) (filter (λ s. not (s.user_id == id)) sessions)
      ≡ filter (λ s. s.user_id == other) sessions
filter-delete_sessions id other [] differ = refl
filter-delete_sessions id other (s ∷ sessions) differ =
    ground
      (arith, filter-delete_sessions id other sessions, eq_iff s.user_id other, eq_iff s.user_id id)

module _ (id other : String) (differ : id ≢ other) (db : Database) where
  set_user-IsUntouched :
      (change : UserRow → UserRow) (now : Database)
      → ((u : UserRow) → (change u).id ≡ u.id)
      → IsUntouched other db now
      → IsUntouched other db (set_user id change now)
  unfolding set_user IsUntouched
  set_user-IsUntouched change now same kept =
      (find_first-set_user id other change now.users differ same ∙ kept.0, kept.1)

  destroy-IsUntouched :
      (now : Database)
      → IsUntouched other db now
      → IsUntouched other db (delete_sessions (λ s. s.user_id == id) now)
  unfolding IsUntouched delete_sessions
  destroy-IsUntouched now kept =
      (kept.0, filter-delete_sessions id other now.sessions differ ∙ kept.1)

  signed_out-IsUntouched :
      (input : UpdateUserInput) (now : Database)
      → IsUntouched other db now
      → IsUntouched other db (signed_out id input now)
  unfolding signed_out destroy_user_sessions
  signed_out-IsUntouched input now kept = elim (Bool-cases (ends_sessions input)) [
    | inl ends ↦ rw ends (destroy-IsUntouched now kept)
    | inr stays ↦ rw stays kept
  ]

  module _ (hash_password : String → String) (input : UpdateUserInput) where
    update_columns-IsUntouched :
        (user : UserRow) (now : Database)
        → IsUntouched other db now
        → IsUntouched other db (update_columns hash_password id input user now).1
    unfolding update_columns columns
    update_columns-IsUntouched user now kept =
        require-keeps (IsUntouched other db) _ _ _ _ kept
          (λ _. set_user-IsUntouched (columns hash_password input) now (λ u. refl) kept)

    -- An update of one user, whether it succeeds or fails at any of its steps, leaves the row with the
    -- grants and the sessions of every other user as they are.
    pub update_user-IsUntouched : IsUntouched other db (update_user hash_password id input db).1
    unfolding update_user IsUntouched
    update_user-IsUntouched =
        let start : IsUntouched other db db = (refl, refl) in
        found-keeps (IsUntouched other db) _ _ _ _ start (λ user _.
          and_then-keeps (IsUntouched other db) _ _ (update_columns-IsUntouched user db start)
            (λ _ a ka.
              update_access-keeps (IsUntouched other db) id
                (λ change now same. set_user-IsUntouched change now (λ u. (same u).0)) input _
                (signed_out-IsUntouched input a ka)))
