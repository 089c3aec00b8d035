-- ===== src/SignIn/Login.antt =====
-- app/api/auth/login/route.ts: the login in one step or two. A request has passed `assertSameOrigin` and
-- the schema, by which an entry is not empty. The audit log and the column for the last login are left out.
pub mod Identity
pub mod Proven
use proxora.Common.{
  ℕ, ◌+◌, ◌*◌, String, List, [], ◌∷◌, Bool, true, false, not, Option, none, some, map, string_eq,
  Codes, ◌⧺◌, ◌&&◌, ◌||◌, ◌==◌, if◌then◌else◌,
}
use proxora.Database.{Database, UserRow, RoleRow, UserStatus, find_first, find_role, find_user}
use proxora.RateLimit.{Buckets, rate_limit}
use proxora.Session.{SessionUser, create_session, to_session_user}
use proxora.SignIn.Totp.{TotpTicket, create_totp_ticket, read_totp_ticket, verify_totp}
use proxora.SignIn.Recovery.{looks_like_recovery_code, consume_recovery_code}

-- What the handler uses of libraries: `trim().toLowerCase()`, SHA-256 of a token and of a normalized
-- recovery code, the test of a password hash, HMAC, and the sealing of texts.
pub record Outside : Type 0 where
  pub name_key : String → String
  pub sha256 : String → String
  pub sha256_code : Codes → String
  pub verify_password : (password hash : String) → Bool
  pub hmac : (key message : List ℕ) → List ℕ
  pub seal : TotpTicket → Codes
  pub unseal : Codes → Option TotpTicket
  pub decrypt_secret : Codes → Option Codes

-- What is read of the request, the clock and the random generator.
pub record Request : Type 0 where
  pub ip : Option String
  pub user_agent : Option String
  pub username : Option String
  pub password : Option String
  pub ticket : Option Codes
  pub totp : Option Codes
  pub now : ℕ
  pub new_token : String
  pub new_id : String
  pub session_days : Option ℕ

pub record Site : Type 0 where
  pub buckets : Buckets
  pub db : Database

pub data Answer : Type 0 where
  rate_limited : Answer
  fields_required : Answer
  invalid_credentials : Answer
  invalid_totp : Answer
  invalid_ticket : Answer
  failed : Answer
  totp_required : Codes → Answer
  signed_in : (token : String) → (expires_at : ℕ) → SessionUser → Answer

abbrev pub window_ms : ℕ
window_ms = 15 * 60 * 1000

abbrev ip_or_unknown : Option String → String
ip_or_unknown none = "unknown"
ip_or_unknown (some ip) = ip

abbrev pub is_active : UserStatus → Bool
is_active UserStatus.active = true
is_active UserStatus.disabled = false

abbrev pub find_username : String → Database → Option UserRow
find_username name db = find_first (λ (u : UserRow). u.username == name) db.users

-- `prisma.user.update` of the hashes
unfoldable pub set_recovery_hashes : (id : String) → List String → Database → Database
set_recovery_hashes id hashes db = record db {
  users =
      map (λ (u : UserRow). if u.id == id then record u { totp_recovery_hashes = hashes } else u)
        db.users;
}

module _ (outside : Outside) (request : Request) where
  abbrev signed : UserRow → Option RoleRow → Database → Answer × Database
  signed user none db = (failed, db)
  signed user (some role) db =
      let made =
        create_session outside.sha256 request.session_days request.new_token request.new_id user.id
          request.ip request.user_agent request.now db in
      (signed_in made.0.0 made.0.1 (to_session_user user role), made.1)

  -- `include: { role: true }`
  unfoldable pub finish_login : UserRow → Database → Answer × Database
  finish_login user db = signed user (find_role user.role_id db) db

  abbrev with_recovered : UserRow → Database → Option (List String) → Answer × Database
  with_recovered user db none = (invalid_totp, db)
  with_recovered user db (some hashes) = finish_login user (set_recovery_hashes user.id hashes db)

  unfoldable pub by_recovery_code : UserRow → (totp : Codes) → Database → Answer × Database
  by_recovery_code user totp db =
      if not (looks_like_recovery_code totp)
      then (invalid_totp, db)
      else with_recovered user db
          (consume_recovery_code outside.sha256_code user.totp_recovery_hashes totp)

  abbrev by_code : UserRow → (totp : Codes) → Database → Option Bool → Answer × Database
  by_code user totp db none = (failed, db)
  by_code user totp db (some true) = finish_login user db
  by_code user totp db (some false) = by_recovery_code user totp db

  abbrev by_secret : UserRow → (totp : Codes) → Database → Option Codes → Answer × Database
  by_secret user totp db none = (invalid_totp, db)
  by_secret user totp db (some secret) =
      by_code user totp db (verify_totp outside.hmac secret totp request.now)

  -- `!user.totpSecret`: an empty text is none.
  abbrev with_secret : UserRow → (totp : Codes) → Database → Option Codes → Answer × Database
  with_secret user totp db none = (invalid_credentials, db)
  with_secret user totp db (some []) = (invalid_credentials, db)
  with_secret user totp db (some (c ∷ sealed)) =
      by_secret user totp db (outside.decrypt_secret (c ∷ sealed))

  abbrev second_user : (totp : Codes) → Database → Option UserRow → Answer × Database
  second_user totp db none = (invalid_credentials, db)
  second_user totp db (some user) =
      if is_active user.status && user.totp_enabled
      then with_secret user totp db user.totp_secret
      else (invalid_credentials, db)

  abbrev second_ticket : (totp : Codes) → Database → Option TotpTicket → Answer × Database
  second_ticket totp db none = (invalid_ticket, db)
  second_ticket totp db (some ticket) = second_user totp db (find_user ticket.user_id db)

  -- the second step: a ticket and a code
  unfoldable pub second_step : (ticket totp : Codes) → Database → Answer × Database
  second_step ticket totp db =
      second_ticket totp db (read_totp_ticket outside.unseal ticket request.now)

  abbrev first_user : (password : String) → Database → Option UserRow → Answer × Database
  first_user password db none = (invalid_credentials, db)
  first_user password db (some user) =
      if outside.verify_password password user.password_hash && is_active user.status
      then (if user.totp_enabled
          then (totp_required (create_totp_ticket outside.seal user.id request.now), db)
          else finish_login user db)
      else (invalid_credentials, db)

  -- the first step: a name and a password
  unfoldable pub first_step : (username password : Option String) → Database → Answer × Database
  first_step none password db = (fields_required, db)
  first_step (some username) none db = (fields_required, db)
  first_step (some username) (some password) db = first_user password db (find_username username db)

  unfoldable pub checked_login : Option Codes → Option Codes → Database → Answer × Database
  checked_login (some ticket) (some totp) db = second_step ticket totp db
  checked_login (some ticket) none db = first_step request.username request.password db
  checked_login none totp db = first_step request.username request.password db

  -- The limit on a name, which an empty key does not count for.
  unfoldable pub name_limit : Option String → Buckets → Bool × Buckets
  name_limit none buckets = (true, buckets)
  name_limit (some username) buckets =
      let key = outside.name_key username in
      if key == ""
      then (true, buckets)
      else rate_limit ("login-user:" ⧺ key) 12 window_ms request.now buckets

  unfoldable pub login : Site → Answer × Site
  login site =
      let by_ip =
        rate_limit ("login:" ⧺ ip_or_unknown request.ip) 8 window_ms request.now site.buckets in
      let by_name = name_limit request.username by_ip.1 in
      let result = checked_login request.ticket request.totp site.db in
      if not by_ip.0
      then (rate_limited, record { buckets = by_ip.1; db = site.db })
      else if not by_name.0
      then (rate_limited, record { buckets = by_name.1; db = site.db })
      else (result.0, record { buckets = by_name.1; db = result.1 })
