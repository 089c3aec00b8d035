-- ===== src/SignIn/Account/Factor.antt =====
-- What it takes to lose the second factor.
use text.Mathlib.TextEquality.{eq_iff}
use proxora.Common.{
  String, List, [], ◌∷◌, Bool, true, false, not, Option, none, some, ◌≡◌, refl, arith, map, Codes,
  string_eq, Bool-cases, inl, inr, if_cases, ◌==◌, ◌&&◌, if◌then◌else◌,
}
use proxora.Database.{Database, UserRow, find_user, find_first, delete_sessions}
use proxora.Session.{destroy_user_sessions}
use proxora.SignIn.Totp.{verify_totp}
use proxora.SignIn.Login.{Outside}
use proxora.SignIn.Account.{
  Action, begin, enable, recovery, disable, Reply, Fresh, set_factor, turned_on, with_new_codes,
  turned_off, enabled_by, disabled_by, disabled_with, disabled_from, act, for_found, post_totp,
}

abbrev enabled_in : Option UserRow → Bool
enabled_in none = false
enabled_in (some user) = user.totp_enabled

unfoldable pub has_factor : String → Database → Bool
has_factor id db = enabled_in (find_user id db)

rows_keep :
    (id uid : String) (change : UserRow → UserRow) (users : List UserRow)
    → ((u : UserRow) → (change u).id ≡ u.id)
    → ((u : UserRow) → u.totp_enabled ≡ true → (change u).totp_enabled ≡ true)
    → enabled_in (find_first (λ (u : UserRow). u.id == id) users) ≡ true
    → enabled_in (
        find_first
          (λ (u : UserRow). u.id == id)
          (map (λ (u : UserRow). if u.id == uid then change u else u) users))
      ≡ true
unfolding find_first
rows_keep id uid change [] same keeps h = cc
rows_keep id uid change (u ∷ users) same keeps h =
    ground (arith, same u, keeps u, rows_keep id uid change users same keeps)

rows_other :
    (id uid : String) (change : UserRow → UserRow) (users : List UserRow)
    → ((u : UserRow) → (change u).id ≡ u.id)
    → (uid == id) ≡ false
    → find_first
        (λ (u : UserRow). u.id == id)
        (map (λ (u : UserRow). if u.id == uid then change u else u) users)
      ≡ find_first (λ (u : UserRow). u.id == id) users
unfolding find_first
rows_other id uid change [] same other = refl
rows_other id uid change (u ∷ users) same other = ground (
  arith,
  same u,
  rows_other id uid change users same other,
  eq_iff u.id uid,
  eq_iff u.id id,
  eq_iff uid id,
)

has_factor-sessions :
    (id uid : String) (except : Option String) (db : Database)
    → has_factor id (destroy_user_sessions uid except db) ≡ has_factor id db
unfolding has_factor destroy_user_sessions delete_sessions
has_factor-sessions id uid none db = refl
has_factor-sessions id uid (some except) db =
    if_cases
      (λ (run : Database → Database).
        enabled_in (find_user id (run db)) ≡ enabled_in (find_user id db))
      (except == "") (delete_sessions (λ s. s.user_id == uid))
      (delete_sessions (λ s. s.user_id == uid && not (s.id == except))) (λ yes. refl) (λ no. refl)

module _ (outside : Outside) (seal_secret : Codes → Codes) (fresh : Fresh) where
  -- The password of the user and a code of his authenticator.
  unfoldable pub IsProof : UserRow → (code : Codes) → (password : String) → Type 0
  IsProof user code password =
      (sealed : Codes) × (secret : Codes) × (user.totp_secret ≡ some sealed)
      × (outside.decrypt_secret sealed ≡ some secret)
      × (outside.verify_password password user.password_hash ≡ true)
      × (verify_totp outside.hmac secret code fresh.now ≡ some true)

  -- What a reply with its database does to the factor of a user that had it.
  abbrev Loses : String → Reply × Database → Type 0
  Loses id result = has_factor id result.1 ≡ false

  disabled_by_ok :
      (id session_id : String) (user : UserRow) (db : Database) (o : Option Bool)
      → has_factor id db ≡ true
      → Loses id (disabled_by outside seal_secret fresh session_id user db o)
      → (o ≡ some true) × (user.id ≡ id)
  unfolding has_factor set_factor turned_off
  disabled_by_ok id session_id user db none had lost = cc
  disabled_by_ok id session_id user db (some false) had lost = cc
  disabled_by_ok id session_id user db (some true) had lost = elim (Bool-cases (user.id == id)) [
    | inl same ↦ (refl, (eq_iff user.id id).0 same)
    | inr other ↦
        let gone =
          has_factor-sessions id user.id (some session_id)
            (set_factor user.id (turned_off outside seal_secret fresh) db) in
        let row =
          rows_other id user.id (turned_off outside seal_secret fresh) db.users (λ u. refl) other in
        cc (had, lost, gone, row)
  ]

  disabled_with_ok :
      (id session_id : String) (user : UserRow) (code : Codes) (db : Database) (o : Option Codes)
      → has_factor id db ≡ true
      → Loses id (disabled_with outside seal_secret fresh session_id user code db o)
      → (secret : Codes) × (o ≡ some secret)
        × (verify_totp outside.hmac secret code fresh.now ≡ some true)
        × (user.id ≡ id)
  disabled_with_ok id session_id user code db none had lost = cc
  disabled_with_ok id session_id user code db (some secret) had lost =
      let (valid, same) = disabled_by_ok id session_id user db _ had lost in
      (secret, refl, valid, same)

  disabled_from_ok :
      (id session_id : String) (user : UserRow) (code : Codes) (password : String) (db : Database)
      (o : Option Codes)
      → user.totp_secret ≡ o
      → has_factor id db ≡ true
      → Loses id (disabled_from outside seal_secret fresh session_id user code password db o)
      → IsProof user code password × (user.id ≡ id)
  unfolding IsProof
  disabled_from_ok id session_id user code password db none at had lost = cc
  disabled_from_ok id session_id user code password db (some []) at had lost = cc
  disabled_from_ok id session_id user code password db (some (c ∷ sealed)) at had lost =
      elim (Bool-cases (outside.verify_password password user.password_hash)) [
        | inl valid ↦
            let (secret, opened, verified, same) =
              disabled_with_ok id session_id user code db (outside.decrypt_secret (c ∷ sealed)) had
                (rw valid at lost) in
            ((c ∷ sealed, secret, at, opened, valid, verified), same)
        | inr wrong ↦ cc (had, rw wrong at lost)
      ]

  kept_by_enabling :
      (id : String) (user : UserRow) (secret : Codes) (db : Database) (o : Option Bool)
      → has_factor id db ≡ true
      → has_factor id (enabled_by outside seal_secret fresh user secret db o).1 ≡ true
  unfolding has_factor set_factor turned_on
  kept_by_enabling id user secret db none had = had
  kept_by_enabling id user secret db (some false) had = had
  kept_by_enabling id user secret db (some true) had =
      rows_keep id user.id (turned_on outside seal_secret fresh secret) db.users (λ u. refl)
        (λ u on. refl) had

  kept_by_codes :
      (id uid : String) (db : Database)
      → has_factor id db ≡ true
      → has_factor id (set_factor uid (with_new_codes outside seal_secret fresh) db) ≡ true
  unfolding has_factor set_factor with_new_codes
  kept_by_codes id uid db had =
      rows_keep id uid (with_new_codes outside seal_secret fresh) db.users (λ u. refl) (λ u on. on)
        had

  -- An action that turns a factor off.
  unfoldable pub IsTurnedOff : UserRow → Action → Type 0
  IsTurnedOff user action =
      (code : Codes) × (password : String) × (action ≡ disable code password)
      × IsProof user code password

  act_ok :
      (id session_id : String) (user : UserRow) (action : Action) (db : Database)
      → has_factor id db ≡ true
      → Loses id (act outside seal_secret fresh session_id user action db)
      → IsTurnedOff user action × (user.id ≡ id)
  unfolding act IsTurnedOff
  act_ok id session_id user begin db had lost = elim (Bool-cases user.totp_enabled) [
    | inl on ↦ cc (had, rw on at lost)
    | inr off ↦ cc (had, rw off at lost)
  ]
  act_ok id session_id user (enable secret code) db had lost = elim (Bool-cases user.totp_enabled) [
    | inl on ↦ cc (had, rw on at lost)
    | inr off ↦
        let kept =
          kept_by_enabling id user secret db (verify_totp outside.hmac secret code fresh.now) had in
        cc (kept, rw off at lost)
  ]
  act_ok id session_id user (recovery password) db had lost = elim (Bool-cases user.totp_enabled) [
    | inl on ↦ elim (Bool-cases (outside.verify_password password user.password_hash)) [
      | inl valid ↦ cc (kept_by_codes id user.id db had, rw (on, valid) at lost)
      | inr wrong ↦ cc (had, rw (on, wrong) at lost)
    ]
    | inr off ↦ cc (had, rw off at lost)
  ]
  act_ok id session_id user (disable code password) db had lost =
      elim (Bool-cases user.totp_enabled) [
        | inl on ↦
            let (proof, same) =
              disabled_from_ok id session_id user code password db user.totp_secret refl had
                (rw on at lost) in
            ((code, password, refl, proof), same)
        | inr off ↦ cc (had, rw off at lost)
      ]

  found_ok :
      (id session_id : String) (action : Action) (db : Database) (o : Option UserRow)
      → has_factor id db ≡ true
      → Loses id (for_found outside seal_secret fresh session_id action db o)
      → (user : UserRow) × (o ≡ some user) × IsTurnedOff user action × (user.id ≡ id)
  found_ok id session_id action db none had lost = cc (had, lost)
  found_ok id session_id action db (some user) had lost =
      let (off, same) = act_ok id session_id user action db had lost in (user, refl, off, same)

  -- A user Loses the second factor by an action of his own alone, which turns it off and comes with his password and
  -- with a code of his authenticator: neither another user nor any other action takes it away.
  pub post_totp-guarded :
      (id session_id user_id : String) (action : Action) (db : Database)
      → has_factor id db ≡ true
      → has_factor id (post_totp outside seal_secret fresh session_id user_id action db).1 ≡ false
      → (user : UserRow) × (find_user user_id db ≡ some user)
        × IsTurnedOff user action
        × (user.id ≡ id)
  unfolding post_totp
  post_totp-guarded id session_id user_id action db had lost =
      found_ok id session_id action db (find_user user_id db) had lost
