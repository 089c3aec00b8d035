-- ===== src/Users/Accounts/SignOut.antt =====
-- When an update or a deletion ends the sessions of a user.
use text.Mathlib.TextEquality.{eq_iff}
use proxora.Common.{
  String, List, [], ◌∷◌, true, false, not, none, some, ◌≢◌, ◌≡◌, refl, arith, filter, string_eq,
  ◌==◌, inl, inr, ◌⊎◌,
}
use proxora.Database.{
  Database, SessionRow, UserRow, UserStatus, find_first, find_user, delete_sessions,
}
use proxora.Database.Run.{done, and_then, found, require, found-keeps}
use proxora.Session.{destroy_user_sessions}
use proxora.Users.Accounts.Isolation.{sessions_of}
use proxora.Users.Accounts.Steps.{update_access-keeps, update_columns-cases}
use proxora.Users.Accounts.{
  UpdateUserInput, set_user, signed_out, ends_sessions, update_user, delete_user,
}

filter-deleted :
    (id : String) (sessions : List SessionRow)
    → filter (λ s. s.user_id == id) (filter (λ s. not (s.user_id == id)) sessions) ≡ []
filter-deleted id [] = refl
filter-deleted id (s ∷ sessions) = ground (arith, filter-deleted id sessions)

signed_out-none :
    (id : String) (input : UpdateUserInput) (db : Database)
    → ends_sessions input ≡ true
    → sessions_of id (signed_out id input db) ≡ []
unfolding signed_out destroy_user_sessions delete_sessions
signed_out-none id input db ends = rw ends (filter-deleted id db.sessions)

-- A request that shall end the sessions: it gives a password that is not empty, or disables the user.
abbrev pub IsSignOut : UpdateUserInput → Type 0
IsSignOut input =
    ((password : String) × (input.password ≡ some password) × (password ≢ ""))
    ⊎ (input.status ≡ some UserStatus.disabled)

ends_sessions-IsSignOut : (input : UpdateUserInput) → IsSignOut input → ends_sessions input ≡ true
ends_sessions-IsSignOut input (inl (password, given, there)) =
    let differ : (password == "") ≡ false = ground (arith, eq_iff password "") in
    rw given (rw differ refl)
ends_sessions-IsSignOut input (inr disabled) = rw disabled (ground arith)

-- An update with a password that is not empty or one that disables the user either writes nothing or leaves the user
-- without a session, also where a later step fails.
pub update_user-sessions :
    (hash_password : String → String) (id : String) (input : UpdateUserInput) (db : Database)
    → IsSignOut input
    → ((update_user hash_password id input db).1 ≡ db)
      ⊎ (sessions_of id (update_user hash_password id input db).1 ≡ [])
unfolding update_user and_then set_user
update_user-sessions hash_password id input db signs_out =
    let ends = ends_sessions-IsSignOut input signs_out in
    found-keeps (λ after. (after ≡ db) ⊎ (sessions_of id after ≡ [])) _ _ _ _ (inl refl)
      (λ user _. elim (update_columns-cases hash_password id input user db) [
        | inl refused ↦ inl (rw refused refl)
        | inr written ↦ inr (
            rw written.1 (
              update_access-keeps (λ after. sessions_of id after ≡ []) id
                (λ change now same none. none) input _ (signed_out-none id input _ ends)))
      ])

find_first-deleted :
    (id : String) (users : List UserRow)
    → find_first (λ u. u.id == id) (filter (λ u. not (u.id == id)) users) ≡ none
unfolding find_first
find_first-deleted id [] = refl
find_first-deleted id (u ∷ users) = ground (arith, find_first-deleted id users)

-- The deletion of a user that exists, by someone else, succeeds, and leaves neither the user nor a session
-- of the user.
pub delete_user-gone :
    (id actor_id : String) (db : Database) (user : UserRow)
    → id ≢ actor_id
    → find_user id db ≡ some user
    → ((delete_user id actor_id db).0 ≡ done tt)
      × (find_user id (delete_user id actor_id db).1 ≡ none)
      × (sessions_of id (delete_user id actor_id db).1 ≡ [])
unfolding delete_user and_then found require delete_sessions
delete_user-gone id actor_id db user other h =
    let differ : (id == actor_id) ≡ false = ground (arith, eq_iff id actor_id) in
    rw differ (rw h (refl, find_first-deleted id db.users, filter-deleted id db.sessions))
