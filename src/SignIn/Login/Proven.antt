-- ===== src/SignIn/Login/Proven.antt =====
-- Who is signed in.
use proxora.Common.{
  [], ◌∷◌, ◌≤◌, String, List, Bool, true, false, Option, none, some, ◌≡◌, ◌⊎◌, inl, inr, refl, ap,
  subst, arith, Codes, string_eq, if◌then◌else◌, ltb,
}
use proxora.Database.{Database, UserRow, find_user}
use proxora.SignIn.Totp.{TotpTicket, read_totp_ticket, verify_totp}
use proxora.SignIn.Recovery.{consume_recovery_code}
use proxora.SignIn.Login.Identity.{signs_in, finish_login_id, with_secret_id}
use proxora.SignIn.Login.{
  Outside, Request, Site, is_active, find_username, by_recovery_code, second_step, first_step,
  checked_login, login, with_recovered, by_code, by_secret, with_secret, second_user, second_ticket,
  first_user,
}

module _ (outside : Outside) (request : Request) where
  -- The name and the password of an active user without a second factor.
  unfoldable pub IsByPassword : Database → UserRow → Type 0
  IsByPassword db user =
      (username : String) × (password : String) × (request.username ≡ some username)
      × (request.password ≡ some password)
      × (find_username username db ≡ some user)
      × (outside.verify_password password user.password_hash ≡ true)
      × (is_active user.status ≡ true)
      × (user.totp_enabled ≡ false)

  -- A code of the authenticator, or a recovery code of the user.
  unfoldable pub IsSecondFactor : UserRow → (totp : Codes) → Type 0
  IsSecondFactor user totp =
      (sealed : Codes) × (secret : Codes) × (user.totp_secret ≡ some sealed)
      × (outside.decrypt_secret sealed ≡ some secret)
      × ((verify_totp outside.hmac secret totp request.now ≡ some true)
          ⊎ ((rest : List String) × (consume_recovery_code outside.sha256_code
                  user.totp_recovery_hashes totp
                ≡ some rest)))

  -- A ticket that is not over, of an active user with a second factor, and that factor.
  unfoldable pub IsByTicket : Database → UserRow → Type 0
  IsByTicket db user =
      (sealed : Codes) × (totp : Codes) × (ticket : TotpTicket) × (request.ticket ≡ some sealed)
      × (request.totp ≡ some totp)
      × (outside.unseal sealed ≡ some ticket)
      × (request.now ≤ ticket.exp)
      × (find_user ticket.user_id db ≡ some user)
      × (is_active user.status ≡ true)
      × (user.totp_enabled ≡ true)
      × IsSecondFactor user totp

  module _ (user_id : String) where
    with_recovered_ok :
        (user : UserRow) (db : Database) (o : Option (List String))
        → signs_in user_id (with_recovered outside request user db o).0 ≡ true
        → (rest : List String) × (o ≡ some rest)
    with_recovered_ok user db none h = cc
    with_recovered_ok user db (some rest) h = (rest, refl)

    by_recovery_code_ok :
        (user : UserRow) (totp : Codes) (db : Database)
        → signs_in user_id (by_recovery_code outside request user totp db).0 ≡ true
        → (rest : List String) × (consume_recovery_code outside.sha256_code
              user.totp_recovery_hashes totp
            ≡ some rest)
    unfolding by_recovery_code
    by_recovery_code_ok user totp db h = with_recovered_ok user db _ (ground arith)

    by_code_ok :
        (user : UserRow) (totp : Codes) (db : Database) (o : Option Bool)
        → signs_in user_id (by_code outside request user totp db o).0 ≡ true
        → (o ≡ some true)
          ⊎ ((rest : List String) × (consume_recovery_code outside.sha256_code
                  user.totp_recovery_hashes totp
                ≡ some rest))
    by_code_ok user totp db none h = cc
    by_code_ok user totp db (some true) h = inl refl
    by_code_ok user totp db (some false) h = inr (by_recovery_code_ok user totp db h)

    by_secret_ok :
        (user : UserRow) (totp : Codes) (db : Database) (o : Option Codes)
        → signs_in user_id (by_secret outside request user totp db o).0 ≡ true
        → (secret : Codes) × (o ≡ some secret)
          × ((verify_totp outside.hmac secret totp request.now ≡ some true)
              ⊎ ((rest : List String) × (consume_recovery_code outside.sha256_code
                      user.totp_recovery_hashes totp
                    ≡ some rest)))
    by_secret_ok user totp db none h = cc
    by_secret_ok user totp db (some secret) h = (secret, refl, by_code_ok user totp db _ h)

    with_secret_ok :
        (user : UserRow) (totp : Codes) (db : Database) (o : Option Codes)
        → signs_in user_id (with_secret outside request user totp db o).0 ≡ true
        → (sealed : Codes) × (secret : Codes) × (o ≡ some sealed)
          × (outside.decrypt_secret sealed ≡ some secret)
          × ((verify_totp outside.hmac secret totp request.now ≡ some true)
              ⊎ ((rest : List String) × (consume_recovery_code outside.sha256_code
                      user.totp_recovery_hashes totp
                    ≡ some rest)))
    with_secret_ok user totp db none h = cc
    with_secret_ok user totp db (some []) h = cc
    with_secret_ok user totp db (some (c ∷ sealed)) h =
        let (secret, opened, factor) =
          by_secret_ok user totp db (outside.decrypt_secret (c ∷ sealed)) h in
        (c ∷ sealed, secret, refl, opened, factor)

    second_user_ok :
        (totp : Codes) (db : Database) (o : Option UserRow)
        → signs_in user_id (second_user outside request totp db o).0 ≡ true
        → (user : UserRow) × (o ≡ some user)
          × (user.id ≡ user_id)
          × (is_active user.status ≡ true)
          × (user.totp_enabled ≡ true)
          × IsSecondFactor user totp
    unfolding IsSecondFactor
    second_user_ok totp db none h = cc
    second_user_ok totp db (some user) h = (
      user,
      refl,
      with_secret_id outside request user_id user totp db user.totp_secret (ground arith),
      ground arith,
      ground arith,
      with_secret_ok user totp db user.totp_secret (ground arith),
    )

    second_ticket_ok :
        (totp : Codes) (db : Database) (o : Option TotpTicket)
        → signs_in user_id (second_ticket outside request totp db o).0 ≡ true
        → (ticket : TotpTicket) × (user : UserRow) × (o ≡ some ticket)
          × (user.id ≡ user_id)
          × (find_user ticket.user_id db ≡ some user)
          × (is_active user.status ≡ true)
          × (user.totp_enabled ≡ true)
          × IsSecondFactor user totp
    second_ticket_ok totp db none h = cc
    second_ticket_ok totp db (some ticket) h =
        let (user, found, same, active, enabled, factor) =
          second_user_ok totp db (find_user ticket.user_id db) h in
        (ticket, user, refl, same, found, active, enabled, factor)

    fresh_ticket : TotpTicket → Option TotpTicket
    fresh_ticket t = if ltb t.exp request.now then none else some t

    fresh_ticket_ok :
        (t ticket : TotpTicket)
        → fresh_ticket t ≡ some ticket
        → (t ≡ ticket) × (request.now ≤ ticket.exp)
    unfolding fresh_ticket
    fresh_ticket_ok t ticket h =
        let same : t ≡ ticket = ground arith in
        (same, subst (λ (u : TotpTicket). request.now ≤ u.exp) same (ground arith))

    read_ok :
        (o : Option TotpTicket) (ticket : TotpTicket)
        → elim o [ none ↦ none | some t ↦ fresh_ticket t ] ≡ some ticket
        → (o ≡ some ticket) × (request.now ≤ ticket.exp)
    read_ok none ticket h = cc
    read_ok (some t) ticket h =
        let (same, fresh) = fresh_ticket_ok t ticket h in (ap (λ u. some u) same, fresh)

    read_totp_ticket_ok :
        (sealed : Codes) (ticket : TotpTicket)
        → read_totp_ticket outside.unseal sealed request.now ≡ some ticket
        → (outside.unseal sealed ≡ some ticket) × (request.now ≤ ticket.exp)
    unfolding read_totp_ticket fresh_ticket
    read_totp_ticket_ok sealed ticket h = read_ok (outside.unseal sealed) ticket h

    first_user_ok :
        (password : String) (db : Database) (o : Option UserRow)
        → signs_in user_id (first_user outside request password db o).0 ≡ true
        → (user : UserRow) × (o ≡ some user)
          × (user.id ≡ user_id)
          × (outside.verify_password password user.password_hash ≡ true)
          × (is_active user.status ≡ true)
          × (user.totp_enabled ≡ false)
    first_user_ok password db none h = cc
    first_user_ok password db (some user) h = (
      user,
      refl,
      finish_login_id outside request user_id user db (ground arith),
      ground arith,
      ground arith,
      ground arith,
    )

    first_step_ok :
        (db : Database) (username password : Option String)
        → request.username ≡ username
        → request.password ≡ password
        → signs_in user_id (first_step outside request username password db).0 ≡ true
        → (user : UserRow) × (user.id ≡ user_id) × IsByPassword db user
    unfolding IsByPassword first_step
    first_step_ok db none password named given h = cc
    first_step_ok db (some username) none named given h = cc
    first_step_ok db (some username) (some password) named given h =
        let (user, found, same, valid, active, single) =
          first_user_ok password db (find_username username db) h in
        (user, same, (username, password, named, given, found, valid, active, single))

    second_step_ok :
        (db : Database) (sealed totp : Codes)
        → request.ticket ≡ some sealed
        → request.totp ≡ some totp
        → signs_in user_id (second_step outside request sealed totp db).0 ≡ true
        → (user : UserRow) × (user.id ≡ user_id) × IsByTicket db user
    unfolding IsByTicket second_step
    second_step_ok db sealed totp named given h =
        let (ticket, user, read, same, found, active, enabled, factor) =
          second_ticket_ok totp db (read_totp_ticket outside.unseal sealed request.now) h in
        let (opened, fresh) = read_totp_ticket_ok sealed ticket read in
        (
          user,
          same,
          (sealed, totp, ticket, named, given, opened, fresh, found, active, enabled, factor),
        )

    checked_login_ok :
        (db : Database) (sealed totp : Option Codes)
        → request.ticket ≡ sealed
        → request.totp ≡ totp
        → signs_in user_id (checked_login outside request sealed totp db).0 ≡ true
        → (user : UserRow) × (user.id ≡ user_id) × (IsByPassword db user ⊎ IsByTicket db user)
    unfolding checked_login
    checked_login_ok db none totp named given h =
        let (user, same, proven) = first_step_ok db request.username request.password refl refl h in
        (user, same, inl proven)
    checked_login_ok db (some sealed) none named given h =
        let (user, same, proven) = first_step_ok db request.username request.password refl refl h in
        (user, same, inl proven)
    checked_login_ok db (some sealed) (some totp) named given h =
        let (user, same, proven) = second_step_ok db sealed totp named given h in
        (user, same, inr proven)

    -- Who is signed in has proved it: with the name and the password of an active user without a second factor, or with a
    -- ticket of the first step that is not over, of an active user with a second factor, and with a code of
    -- the authenticator or a recovery code of that user.
    pub login-proven :
        (site : Site)
        → signs_in user_id (login outside request site).0 ≡ true
        → (user : UserRow) × (user.id ≡ user_id)
          × (IsByPassword site.db user ⊎ IsByTicket site.db user)
    unfolding login
    login-proven site h =
        checked_login_ok site.db request.ticket request.totp refl refl (ground arith)
