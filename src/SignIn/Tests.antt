-- ===== src/SignIn/Tests.antt =====
-- Logins, and the theorems at one.
use proxora.Common.{
  ℕ, String, List, [], ◌∷◌, none, some, ◌≡◌, ◌⊎◌, refl, true, false, string_eq, codes_eq, nat_eq,
  ◌==◌, Codes, codes, upper, upper_code, is_space, includes, lookup, insert, if◌then◌else◌,
}
use proxora.Database.{delete_sessions, find_user, UserRow, RoleRow, UserStatus, find_first}
use proxora.Session.{destroy_user_sessions, create_session, session_days, day_ms, to_session_user}
use proxora.RateLimit.{rate_limit, prune}
use proxora.SignIn.Totp.{
  index_from, power_of_two, without_padding, cleaned, decode_from, decode_base32, byte_at,
  big_endian, padded, truncated, hotp, totp_code, verify_totp, is_code_at, verify_at,
  create_totp_ticket, read_totp_ticket,
}
use proxora.SignIn.Recovery.{
  is_code_letter, normalize_recovery_code, looks_like_recovery_code, index_of, without_index,
  hash_recovery_code, consume_recovery_code,
}
use proxora.SignIn.Recovery.Once.{distinct, IsOneLess, consume_recovery_code-once}
use proxora.SignIn.Login.{
  Outside, Request, Site, finish_login, by_recovery_code, second_step, first_step, checked_login,
  name_limit, login, set_recovery_hashes,
}
use proxora.SignIn.Account.{disable, Fresh, act, post_totp, set_factor, turned_off}
use proxora.SignIn.Account.Factor.{has_factor, IsTurnedOff, post_totp-guarded}
use proxora.SignIn.Login.Identity.{signs_in}
use proxora.SignIn.Login.Proven.{IsByPassword, IsByTicket, login-proven}

running : Unit {0}
unfolding upper upper_code is_space includes lookup insert find_first create_session session_days
    day_ms to_session_user rate_limit prune index_from power_of_two without_padding cleaned
    decode_from decode_base32 byte_at big_endian padded truncated hotp totp_code verify_totp
    is_code_at verify_at create_totp_ticket read_totp_ticket is_code_letter normalize_recovery_code
    looks_like_recovery_code index_of without_index hash_recovery_code consume_recovery_code
    distinct finish_login by_recovery_code second_step first_step checked_login name_limit login
    set_recovery_hashes
running = tt

-- the digest of the first counter in RFC 4226
abbrev digest : (key message : List ℕ) → List ℕ
digest key message =
    204 ∷ 147 ∷ 207 ∷ 24 ∷ 80 ∷ 141 ∷ 148 ∷ 147 ∷ 76 ∷ 100 ∷ 182 ∷ 93 ∷ 139 ∷ 167 ∷ 102 ∷ 127 ∷ 183
    ∷ 205 ∷ 228 ∷ 176 ∷ []

totp_tests :
    (decode_base32 (codes "mzxw 6===") ≡ some (102 ∷ 111 ∷ 111 ∷ []))
    × (decode_base32 (codes "1") ≡ none)
    × (hotp digest [] 0 ≡ codes "755224")
    × (verify_totp digest (codes "MZXW6") (codes "755 224") 100000 ≡ some true)
unfolding running
totp_tests = (refl, refl, refl, refl)

-- a digest of recovery codes for tests
abbrev name_of : Codes → String
name_of code = if code == codes "ABCD2345" then "a" else "other"

abbrev outside : Outside
outside = record {
  name_key = λ s. s;
  sha256 = λ s. s;
  sha256_code = name_of;
  verify_password = λ password hash. password == hash;
  hmac = digest;
  seal = λ t. codes "sealed";
  unseal = λ s. some (record { user_id = "u1"; exp = 400000 });
  decrypt_secret = λ s. some (codes "MZXW6");
}

abbrev ann : UserRow
ann = record {
  id = "u1";
  username = "ann";
  email = "ann@lab";
  password_hash = "x";
  status = UserStatus.active;
  role_id = "r1";
  host_access = [];
  guest_access = [];
  totp_enabled = true;
  totp_secret = some (codes "sealed");
  totp_recovery_hashes = "b" ∷ "a" ∷ [];
}

abbrev role : RoleRow
role = record {
  id = "r1";
  slug = "r";
  name = "R";
  description = "";
  is_system = false;
  permissions = [];
}

abbrev site : Site
site = record { buckets = []; db = record { users = ann ∷ []; roles = role ∷ []; sessions = [] } }

abbrev request : Request
request = record {
  ip = none;
  user_agent = none;
  username = none;
  password = none;
  ticket = some (codes "sealed");
  totp = some (codes "abcd-2345");
  now = 100000;
  new_token = "t";
  new_id = "s";
  session_days = none;
}

login_tests :
    (signs_in "u1" (login outside request site).0 ≡ true)
    × ((login outside request site).1.db.users
        ≡ record ann { totp_recovery_hashes = "b" ∷ [] } ∷ [])
    × (signs_in "u1" (login outside request (login outside request site).1).0 ≡ false)
unfolding running
login_tests = (refl, refl, refl)

consume_recovery_code-once_example :
    IsOneLess (hash_recovery_code name_of (codes "abcd-2345")) ("b" ∷ "a" ∷ []) ("b" ∷ [])
    × (consume_recovery_code name_of ("b" ∷ []) (codes "abcd-2345") ≡ none)
unfolding running
consume_recovery_code-once_example =
    consume_recovery_code-once name_of ("b" ∷ "a" ∷ []) ("b" ∷ []) (codes "abcd-2345") refl refl

login-proven_example :
    (user : UserRow) × (user.id ≡ "u1")
    × (IsByPassword outside request site.db user ⊎ IsByTicket outside request site.db user)
unfolding running
login-proven_example = login-proven outside request "u1" site refl

abbrev fresh : Fresh
fresh = record { secret = codes "MZXW6"; codes = []; now = 100000 }

post_totp-guarded_example :
    (user : UserRow) × (find_user "u1" site.db ≡ some user)
    × IsTurnedOff outside (λ s. s) fresh user (disable (codes "755224") "x")
    × (user.id ≡ "u1")
unfolding running has_factor post_totp act destroy_user_sessions delete_sessions set_factor
    turned_off
post_totp-guarded_example =
    post_totp-guarded outside (λ s. s) fresh "u1" "s" "u1" (disable (codes "755224") "x") site.db
      refl refl
