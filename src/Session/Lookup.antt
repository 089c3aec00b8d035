-- ===== src/Session/Lookup.antt =====
-- Which tokens open a session.
use text.Mathlib.TextEquality.{eq_iff}
use proxora.Common.{
  ℕ, ◌≤◌, String, not, Option, none, some, ◌≡◌, ◌≢◌, refl, arith, All, All-test, All-mono,
  string_eq, ◌==◌, Option-cases, inl, inr, Bool-cases,
}
use proxora.Database.{Database, UserStatus, find_user, find_role, find_session, delete_sessions}
use proxora.Database.Laws.{find_first-test, find_first-All}
use proxora.Session.{
  Server, AuthSession, SessionRecord, to_session_user, ensure_system_roles, find_session_record,
  check_record, load_session, get_session_from_token, destroy_user_sessions,
}

-- A session that a database stands for: an unexpired row of an active user.
pub record Authenticated (db : Database) (token_hash : String) (now : ℕ) (a : AuthSession)
    : Type 0 where
  pub found : SessionRecord
  pub loaded : find_session_record token_hash db ≡ some found
  pub unexpired : now ≤ found.row.expires_at
  pub enabled : found.user.status ≡ UserStatus.active
  pub id : a.id ≡ found.row.id
  pub user : a.user ≡ to_session_user found.user found.role

check_record-Authenticated :
    (db : Database) (token_hash : String) (found : Option SessionRecord) (now : ℕ) (server : Server)
    (a : AuthSession)
    → find_session_record token_hash db ≡ found
    → (check_record found now server).0 ≡ some a
    → Authenticated db token_hash now a
unfolding check_record
check_record-Authenticated db token_hash none now server a e h = cc
check_record-Authenticated db token_hash (some found) now server a e h = record {
  found = found;
  loaded = e;
  unexpired = ground arith;
  enabled = ground arith;
  id = ground arith;
  user = ground arith;
}

-- A token opens a session only if its hash belongs to a row that has not expired, of a user who is
-- active; the session then is that row's, and its user that user with the current role.
pub get_session_from_token-Authenticated :
    (sha256 new_id : String → String) (token : String) (now : ℕ) (server : Server) (a : AuthSession)
    → (get_session_from_token sha256 new_id (some token) now server).0 ≡ some a
    → Authenticated (ensure_system_roles new_id server).db (sha256 token) now a
unfolding get_session_from_token load_session
get_session_from_token-Authenticated sha256 new_id token now server a h =
    elim (Bool-cases (token == "")) [
      | inl empty ↦
          let refused : (load_session sha256 new_id none now server).0 ≡ some a = rw empty at h in
          cc
      | inr given ↦
          let accepted : (load_session sha256 new_id (some token) now server).0 ≡ some a =
            rw given at h in
          let ready = ensure_system_roles new_id server in
          check_record-Authenticated ready.db (sha256 token) _ now ready a refl accepted
    ]

find_session_record_parts :
    (token_hash : String) (db : Database) (f : SessionRecord)
    → find_session_record token_hash db ≡ some f
    → (find_session token_hash db ≡ some f.row)
      × (find_user f.row.user_id db ≡ some f.user)
      × (find_role f.user.role_id db ≡ some f.role)
unfolding find_session_record
find_session_record_parts token_hash db f h = elim (Option-cases (find_session token_hash db)) [
  | inl missing ↦ cc (rw (missing) at h)
  | inr (row, found) ↦ elim (Option-cases (find_user row.user_id db)) [
    | inl missing ↦ ground (arith, found)
    | inr (user, owner) ↦ elim (Option-cases (find_role user.role_id db)) [
      | inl missing ↦ ground (arith, found, owner)
      | inr (role, granted) ↦ ground (arith, found, owner, granted)
    ]
  ]
]

pub ensure-sessions :
    (new_id : String → String) (server : Server)
    → (ensure_system_roles new_id server).db.sessions ≡ server.db.sessions
unfolding ensure_system_roles
ensure-sessions new_id server = ground arith

pub ensure-users :
    (new_id : String → String) (server : Server)
    → (ensure_system_roles new_id server).db.users ≡ server.db.users
unfolding ensure_system_roles
ensure-users new_id server = ground arith

pub ensure-roles :
    (new_id : String → String) (a b : Server)
    → a.started ≡ b.started
    → a.db.roles ≡ b.db.roles
    → (ensure_system_roles new_id a).db.roles ≡ (ensure_system_roles new_id b).db.roles
unfolding ensure_system_roles
ensure-roles new_id a b started roles = ground arith

destroyed :
    (user_id : String) (db : Database)
    → All (λ s. s.user_id ≢ user_id) (destroy_user_sessions user_id none db).sessions
unfolding destroy_user_sessions delete_sessions
destroyed user_id db =
    All-mono _ _ _ (λ s h. ground (arith, eq_iff s.user_id user_id))
      (All-test (λ s. not (s.user_id == user_id)) db.sessions)

-- A session that the look-up of a token returns belongs to a user with a session row.
Authenticated-row :
    (db : Database) (token_hash : String) (now : ℕ) (a : AuthSession) (user_id : String)
    → All (λ s. s.user_id ≢ user_id) db.sessions
    → Authenticated db token_hash now a
    → a.user.id ≢ user_id
unfolding to_session_user
Authenticated-row db token_hash now a user_id none_left auth =
    let (row, owner, role) = find_session_record_parts token_hash db auth.found auth.loaded in
    let other =
      find_first-All (λ s. s.user_id ≢ user_id) (λ s. s.token_hash == token_hash) db.sessions
        auth.found.row none_left row in
    let same =
      find_first-test (λ u. u.id == auth.found.row.user_id) db.users auth.found.user owner in
    λ e.
      other
        (ground (arith, auth.user, e, (eq_iff auth.found.user.id auth.found.row.user_id).0 same))

-- Once all sessions of a user are destroyed, as after a change of the password, no token opens a
-- session of that user.
pub get_session-destroyed :
    (sha256 new_id : String → String) (token : String) (now : ℕ) (server : Server)
    (user_id : String) (a : AuthSession)
    → (get_session_from_token sha256 new_id
        (some token)
        now
        (record server { db = destroy_user_sessions user_id none server.db })).0
      ≡ some a
    → a.user.id ≢ user_id
get_session-destroyed sha256 new_id token now server user_id a h =
    let after : Server = record server { db = destroy_user_sessions user_id none server.db } in
    Authenticated-row (ensure_system_roles new_id after).db (sha256 token) now a user_id
      (rw (ensure-sessions new_id after) (destroyed user_id server.db))
      (get_session_from_token-Authenticated sha256 new_id token now after a h)
