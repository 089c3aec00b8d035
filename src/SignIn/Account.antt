-- ===== src/SignIn/Account.antt =====
-- app/api/account/totp/route.ts: a user turns the second factor on and off and asks for new recovery codes. A request
-- has a session and has passed the schema. The random secret and codes are arguments; the audit log is left out.
pub mod Factor
use proxora.Common.{
  ℕ, String, List, [], ◌∷◌, Bool, true, false, not, Option, none, some, map, length, string_eq,
  Codes, ◌==◌, if◌then◌else◌,
}
use proxora.Database.{Database, UserRow, find_user}
use proxora.Errors.{AppError, validation}
use proxora.Session.{destroy_user_sessions}
use proxora.SignIn.Totp.{verify_totp}
use proxora.SignIn.Recovery.{hash_recovery_codes}
use proxora.SignIn.Login.{Outside}

pub data Action : Type 0 where
  begin : Action
  enable : (secret code : Codes) → Action
  recovery : (password : String) → Action
  disable : (code : Codes) → (password : String) → Action

-- The secret of `begun` also stands in an address and in a picture. `crashed` is an error that is not meant for the user.
pub data Reply : Type 0 where
  begun : (secret : Codes) → Reply
  enabled : (codes : List Codes) → Reply
  renewed : (codes : List Codes) → (remaining : ℕ) → Reply
  disabled : Reply
  refused : AppError → Reply
  crashed : Reply

pub record Fresh : Type 0 where
  pub secret : Codes
  pub codes : List Codes
  pub now : ℕ

-- `prisma.user.update` of the columns of the second factor
unfoldable pub set_factor : (id : String) → (UserRow → UserRow) → Database → Database
set_factor id change db = record db {
  users = map (λ (u : UserRow). if u.id == id then change u else u) db.users;
}

-- `seal_secret` is `encryptSecret`.
module _ (outside : Outside) (seal_secret : Codes → Codes) (fresh : Fresh) where
  unfoldable pub turned_on : (secret : Codes) → UserRow → UserRow
  turned_on secret user = record user {
    totp_enabled = true;
    totp_secret = some (seal_secret secret);
    totp_recovery_hashes = hash_recovery_codes outside.sha256_code fresh.codes;
  }

  unfoldable pub with_new_codes : UserRow → UserRow
  with_new_codes user = record user {
    totp_recovery_hashes = hash_recovery_codes outside.sha256_code fresh.codes;
  }

  unfoldable pub turned_off : UserRow → UserRow
  turned_off user = record user {
    totp_enabled = false;
    totp_secret = none;
    totp_recovery_hashes = [];
  }

  abbrev pub enabled_by : UserRow → (secret : Codes) → Database → Option Bool → Reply × Database
  enabled_by user secret db none = (crashed, db)
  enabled_by user secret db (some false) = (refused (validation "INVALID_TOTP"), db)
  enabled_by user secret db (some true) =
      (enabled fresh.codes, set_factor user.id (turned_on secret) db)

  abbrev pub disabled_by :
      (session_id : String) → UserRow → Database → Option Bool → Reply × Database
  disabled_by session_id user db none = (crashed, db)
  disabled_by session_id user db (some false) = (refused (validation "INVALID_TOTP"), db)
  disabled_by session_id user db (some true) =
      (disabled, destroy_user_sessions user.id (some session_id) (set_factor user.id turned_off db))

  abbrev pub disabled_with :
      (session_id : String) → UserRow → (code : Codes) → Database → Option Codes → Reply × Database
  disabled_with session_id user code db none = (refused (validation "INVALID_TOTP"), db)
  disabled_with session_id user code db (some secret) =
      disabled_by session_id user db (verify_totp outside.hmac secret code fresh.now)

  -- `!user.totpSecret`: an empty text is none.
  abbrev pub disabled_from :
      (session_id : String)
      → UserRow
      → (code : Codes) → (password : String) → Database
      → Option Codes
      → Reply × Database
  disabled_from session_id user code password db none =
      (refused (validation "2FA is not enabled"), db)
  disabled_from session_id user code password db (some []) =
      (refused (validation "2FA is not enabled"), db)
  disabled_from session_id user code password db (some (c ∷ sealed)) =
      if not (outside.verify_password password user.password_hash)
      then (refused (validation "CURRENT_PASSWORD_INVALID"), db)
      else disabled_with session_id user code db (outside.decrypt_secret (c ∷ sealed))

  unfoldable pub act : (session_id : String) → UserRow → Action → Database → Reply × Database
  act session_id user begin db =
      if user.totp_enabled
      then (refused (validation "2FA is already enabled"), db)
      else (begun fresh.secret, db)
  act session_id user (enable secret code) db =
      if user.totp_enabled
      then (refused (validation "2FA is already enabled"), db)
      else enabled_by user secret db (verify_totp outside.hmac secret code fresh.now)
  act session_id user (recovery password) db =
      if not user.totp_enabled
      then (refused (validation "2FA is not enabled"), db)
      else if not (outside.verify_password password user.password_hash)
      then (refused (validation "CURRENT_PASSWORD_INVALID"), db)
      else (renewed fresh.codes (length fresh.codes), set_factor user.id with_new_codes db)
  act session_id user (disable code password) db =
      if not user.totp_enabled
      then (refused (validation "2FA is not enabled"), db)
      else disabled_from session_id user code password db user.totp_secret

  abbrev pub for_found :
      (session_id : String) → Action → Database → Option UserRow → Reply × Database
  for_found session_id action db none = (refused (validation "User not found"), db)
  for_found session_id action db (some user) = act session_id user action db

  unfoldable pub post_totp : (session_id user_id : String) → Action → Database → Reply × Database
  post_totp session_id user_id action db = for_found session_id action db (find_user user_id db)
