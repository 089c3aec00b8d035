-- ===== src/SignIn/Totp.antt =====
-- lib/totp.ts: the codes of an authenticator, and the ticket between the two steps of a login. A byte is a
-- natural number below 256. The clock is past 1970, so that a code of the step before has a time too.
use proxora.Common.{
  ℕ, zero, suc, ◌+◌, ◌-◌, ◌*◌, ◌/◌, ◌%◌, String, List, [], ◌∷◌, ◌++◌, Bool, true, false, not,
  Option, none, some, filter, all, codes_eq, nat_eq, Codes, codes, upper, is_space, length, leb,
  ltb, ◌&&◌, ◌||◌, ◌==◌, if◌then◌else◌,
}

abbrev pub base32 : Codes
base32 = codes "ABCDEFGHIJKLMNOPQRSTUVWXYZ234567"

-- `BASE32.indexOf(ch)`, from an index on; -1 is `none`.
unfoldable pub index_from : ℕ → ℕ → Codes → Option ℕ
index_from i c [] = none
index_from i c (d ∷ s) = let rest = index_from (suc i) c s in if d == c then some i else rest

unfoldable pub power_of_two : ℕ → ℕ
power_of_two zero = 1
power_of_two (suc n) = 2 * power_of_two n

-- A character in front of what is left of the rest: `=` goes if nothing is left.
abbrev pub padding_before : ℕ → Codes → Codes
padding_before c [] = if c == 61 then [] else c ∷ []
padding_before c (d ∷ s) = c ∷ d ∷ s

-- `.replace(/=+$/g, "")`
unfoldable pub without_padding : Codes → Codes
without_padding [] = []
without_padding (c ∷ s) = padding_before c (without_padding s)

-- `.replace(/[\s-]/g, "")`
unfoldable pub cleaned : Codes → Codes
cleaned input = filter (λ c. not (is_space c || c == 45)) (without_padding (upper input))

abbrev pub put_byte : ℕ → Option (List ℕ) → Option (List ℕ)
put_byte byte none = none
put_byte byte (some bytes) = some (byte ∷ bytes)

-- The loop over the characters, with the 32 bits of `value`. A text that is refused is `none`.
unfoldable pub decode_from : (bits value : ℕ) → Codes → Option (List ℕ)
decode_from bits value [] = some []
decode_from bits value (c ∷ s) = elim (index_from 0 c base32) [
  | none ↦ none
  | some index ↦
      let next = (value * 32 + index) % power_of_two 32 in
      let more = decode_from (bits + 5) next s in
      let rest = decode_from (bits + 5 - 8) next s in
      if leb 8 (bits + 5) then put_byte (next / power_of_two (bits + 5 - 8) % 256) rest else more
]

unfoldable pub decode_base32 : Codes → Option (List ℕ)
decode_base32 input = decode_from 0 0 (cleaned input)

-- `buf[i]` of a byte that is there
unfoldable pub byte_at : ℕ → List ℕ → ℕ
byte_at i [] = 0
byte_at zero (b ∷ bytes) = b
byte_at (suc i) (b ∷ bytes) = byte_at i bytes

-- `buf.writeBigUInt64BE(counter)`: the given number of bytes, the highest first
unfoldable pub big_endian : (n counter : ℕ) → List ℕ
big_endian zero counter = []
big_endian (suc n) counter = big_endian n (counter / 256) ++ counter % 256 ∷ []

-- The digits of `String(n).padStart(digits, "0")` for a number below `10 ** digits`.
unfoldable pub padded : (digits n : ℕ) → Codes
padded zero n = []
padded (suc digits) n = padded digits (n / 10) ++ (48 + n % 10) ∷ []

abbrev pub six : ℕ
six = 6

-- `hmac` is `createHmac("sha1", key).update(buf).digest()`.
module _ (hmac : (key message : List ℕ) → List ℕ) where
  unfoldable pub truncated : List ℕ → ℕ
  truncated digest =
      let offset = byte_at (length digest - 1) digest % 16 in
      byte_at offset digest % 128 * power_of_two 24
      + byte_at (offset + 1) digest * power_of_two 16
      + byte_at (offset + 2) digest * power_of_two 8
      + byte_at (offset + 3) digest

  unfoldable pub hotp : (key : List ℕ) → (counter : ℕ) → Codes
  hotp key counter = padded six (truncated (hmac key (big_endian 8 counter)) % 1000000)

  -- A secret that is not in the alphabet throws.
  unfoldable pub totp_code : (secret : Codes) → (time_ms : ℕ) → Option Codes
  totp_code secret time_ms = elim (decode_base32 secret) [
    | none ↦ none
    | some key ↦ some (hotp key (time_ms / 1000 / 30))
  ]

  -- `candidate` at a time against the code that is given; `none` throws.
  unfoldable pub is_code_at : (secret trimmed : Codes) → (time_ms : ℕ) → Option Bool
  is_code_at secret trimmed time_ms = elim (totp_code secret time_ms) [
    | none ↦ none
    | some code ↦ some (code == trimmed)
  ]

  -- The loop over the steps of the window: the times that are left.
  unfoldable pub verify_at : (secret trimmed : Codes) → List ℕ → Option Bool
  verify_at secret trimmed [] = some false
  verify_at secret trimmed (time ∷ times) =
      let rest = verify_at secret trimmed times in
      elim (is_code_at secret trimmed time) [
        | none ↦ none
        | some same ↦ if same then some true else rest
      ]

  unfoldable pub verify_totp : (secret code : Codes) → (time_ms : ℕ) → Option Bool
  verify_totp secret code time_ms =
      let trimmed = filter (λ c. not (is_space c)) code in
      if length trimmed == 6 && all (λ c. leb 48 c && leb c 57) trimmed
      then verify_at secret trimmed ((time_ms - 30000) ∷ time_ms ∷ (time_ms + 30000) ∷ [])
      else some false

-- What a ticket holds.
pub record TotpTicket : Type 0 where
  pub user_id : String
  pub exp : ℕ

abbrev pub ticket_ttl_ms : ℕ
ticket_ttl_ms = 5 * 60000

-- `seal` is `encryptSecret(JSON.stringify(…))`, and `unseal` reads a sealed text with its two entries or throws.
unfoldable pub create_totp_ticket :
    (seal : TotpTicket → Codes) → (user_id : String) → (now : ℕ) → Codes
create_totp_ticket seal user_id now = seal (record { user_id = user_id; exp = now + ticket_ttl_ms })

-- A ticket that cannot be read or is over throws an error of the kind `unauthorized`.
unfoldable pub read_totp_ticket :
    (unseal : Codes → Option TotpTicket) → Codes → (now : ℕ) → Option TotpTicket
read_totp_ticket unseal ticket now = elim (unseal ticket) [
  | none ↦ none
  | some t ↦ if ltb t.exp now then none else some t
]
