-- ===== src/Session/Created.antt =====
-- A session that is created can be looked up.
use text.Mathlib.TextEquality.{eq_iff}
use proxora.Common.{
  ==_refl, ℕ, ◌+◌, ◌*◌, ◌≤◌, String, Option, none, some, ◌≡◌, ◌≢◌, refl, arith, string_eq, ◌==◌,
}
use proxora.Database.{
  Database, UserRow, RoleRow, SessionRow, UserStatus, find_user, find_role, find_session,
}
use proxora.Database.Laws.{find_first-append}
use proxora.Session.Lookup.{ensure-sessions, ensure-users, ensure-roles}
use proxora.Session.{
  Server, SessionRecord, to_session_user, ensure_system_roles, find_session_record, check_record,
  load_session, get_session_from_token, create_session, session_days, day_ms,
}

find_session_record_from :
    (token_hash : String) (db : Database) (f : SessionRecord)
    → find_session token_hash db ≡ some f.row
    → find_user f.row.user_id db ≡ some f.user
    → find_role f.user.role_id db ≡ some f.role
    → find_session_record token_hash db ≡ some f
unfolding find_session_record
find_session_record_from token_hash db f row owner role = rw (row, owner, role)

get_session-found :
    (sha256 new_id : String → String) (token : String) (now : ℕ) (server : Server)
    (f : SessionRecord)
    → token ≢ ""
    → find_session_record (sha256 token) (ensure_system_roles new_id server).db ≡ some f
    → f.user.status ≡ UserStatus.active
    → now ≤ f.row.expires_at
    → (get_session_from_token sha256 new_id (some token) now server).0
      ≡ some (record {
        id = f.row.id;
        user = to_session_user f.user f.role;
        expires_at = f.row.expires_at;
      })
unfolding get_session_from_token check_record load_session
get_session-found sha256 new_id token now server f given found enabled lasts =
    ground (arith, eq_iff token "")

-- A session that was just created is found by its token until it expires, if no other row has the
-- hash of the token, and the user is active.
pub get_session-create_session :
    (sha256 new_id : String → String) (days : Option ℕ) (token id : String)
    (ip user_agent : Option String) (created now : ℕ) (server : Server) (user : UserRow)
    (role : RoleRow)
    → token ≢ ""
    → find_session (sha256 token) server.db ≡ none
    → find_user user.id server.db ≡ some user
    → find_role user.role_id (ensure_system_roles new_id server).db ≡ some role
    → user.status ≡ UserStatus.active
    → now ≤ created + session_days days * day_ms
    → let db = (create_session sha256 days token id user.id ip user_agent created server.db).1 in
      (get_session_from_token sha256 new_id (some token) now (record server { db = db })).0
      ≡ some (record {
        id = id;
        user = to_session_user user role;
        expires_at = created + session_days days * day_ms;
      })
unfolding create_session
get_session-create_session sha256 new_id days token id ip user_agent created now server user role
      given fresh owner granted enabled lasts =
    get_session-found sha256 new_id token now after (record { row = row; user = user; role = role })
      given found enabled lasts
  where
    row : SessionRow
    row = record {
      id = id;
      user_id = user.id;
      token_hash = sha256 token;
      ip = ip;
      user_agent = user_agent;
      expires_at = created + session_days days * day_ms;
    }

    after : Server
    after = record server {
      db = (create_session sha256 days token id user.id ip user_agent created server.db).1;
    }

    found :
        find_session_record (sha256 token) (ensure_system_roles new_id after).db
        ≡ some (record { row = row; user = user; role = role })
    found =
        find_session_record_from (sha256 token) (ensure_system_roles new_id after).db
          (record { row = row; user = user; role = role })
          (rw (ensure-sessions new_id after) (
            find_first-append (λ s. s.token_hash == sha256 token) server.db.sessions row fresh
              (==_refl (sha256 token))))
          (rw (ensure-users new_id after) owner)
          (rw (ensure-roles new_id after server refl refl) granted)
