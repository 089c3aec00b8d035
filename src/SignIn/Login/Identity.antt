-- ===== src/SignIn/Login/Identity.antt =====
-- The user that an answer signs in is the one that was checked.
use text.Mathlib.TextEquality.{eq_iff}
use proxora.Common.{
  [], ◌∷◌, String, List, Bool, true, false, Option, none, some, ◌≡◌, arith, Codes, string_eq, ◌==◌,
}
use proxora.Database.{Database, UserRow, RoleRow, find_role}
use proxora.Session.{to_session_user}
use proxora.SignIn.Recovery.{consume_recovery_code}
use proxora.SignIn.Login.{
  Outside, Request, Answer, signed_in, finish_login, by_recovery_code, signed, with_recovered,
  by_code, by_secret, with_secret,
}

-- The answer that signs a user in.
abbrev pub signs_in : (user_id : String) → Answer → Bool
signs_in user_id (signed_in token expires_at user) = user.id == user_id
signs_in user_id answer = false

module _ (outside : Outside) (request : Request) where
  module _ (user_id : String) where
    signed_id :
        (user : UserRow) (o : Option RoleRow) (db : Database)
        → signs_in user_id (signed outside request user o db).0 ≡ true
        → user.id ≡ user_id
    unfolding to_session_user
    signed_id user none db h = cc
    signed_id user (some role) db h = (eq_iff user.id user_id).0 h

    pub finish_login_id :
        (user : UserRow) (db : Database)
        → signs_in user_id (finish_login outside request user db).0 ≡ true
        → user.id ≡ user_id
    unfolding finish_login
    finish_login_id user db h = signed_id user (find_role user.role_id db) db h

    with_recovered_id :
        (user : UserRow) (db : Database) (o : Option (List String))
        → signs_in user_id (with_recovered outside request user db o).0 ≡ true
        → user.id ≡ user_id
    with_recovered_id user db none h = cc
    with_recovered_id user db (some rest) h = finish_login_id user _ h

    by_recovery_code_id :
        (user : UserRow) (totp : Codes) (db : Database)
        → signs_in user_id (by_recovery_code outside request user totp db).0 ≡ true
        → user.id ≡ user_id
    unfolding by_recovery_code
    by_recovery_code_id user totp db h =
        with_recovered_id user db
          (consume_recovery_code outside.sha256_code user.totp_recovery_hashes totp) (ground arith)

    by_code_id :
        (user : UserRow) (totp : Codes) (db : Database) (o : Option Bool)
        → signs_in user_id (by_code outside request user totp db o).0 ≡ true
        → user.id ≡ user_id
    by_code_id user totp db none h = cc
    by_code_id user totp db (some true) h = finish_login_id user db h
    by_code_id user totp db (some false) h = by_recovery_code_id user totp db h

    by_secret_id :
        (user : UserRow) (totp : Codes) (db : Database) (o : Option Codes)
        → signs_in user_id (by_secret outside request user totp db o).0 ≡ true
        → user.id ≡ user_id
    by_secret_id user totp db none h = cc
    by_secret_id user totp db (some secret) h = by_code_id user totp db _ h

    pub with_secret_id :
        (user : UserRow) (totp : Codes) (db : Database) (o : Option Codes)
        → signs_in user_id (with_secret outside request user totp db o).0 ≡ true
        → user.id ≡ user_id
    with_secret_id user totp db none h = cc
    with_secret_id user totp db (some []) h = cc
    with_secret_id user totp db (some (c ∷ sealed)) h = by_secret_id user totp db _ h
