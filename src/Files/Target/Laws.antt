-- ===== src/Files/Target/Laws.antt =====
-- What an address is that the code connects to.
use proxora.Common.{
  ℕ, ◌≤◌, List, [], ◌∷◌, Bool, true, false, ◌≡◌, refl, subst, arith, all, codes_eq, nat_eq, Codes,
  split, grow, trim, trim-idempotent, lower, lower_code, suc, ◌++◌, length, map, not, codes,
  starts_with, leb, ltb, ◌&&◌, ◌||◌, ◌==◌,
}
use proxora.Files.Target.{
  ok, is_refused, number_of, is_digit, is_octet, is_ipv4, is_ipv6_code, without_first, without_last,
  ipv6_target, is_allowed_sftp_target,
}

-- `[0-9a-f:.]`
unfoldable pub is_host_code : ℕ → Bool
is_host_code c = is_ipv6_code c || c == 46

all-grow :
    (c : ℕ) (parts : List Codes)
    → all (all is_digit) (grow c parts) ≡ true
    → (is_digit c ≡ true) × (all (all is_digit) parts ≡ true)
all-grow c [] h = ground arith
all-grow c (part ∷ parts) h = ground arith

split-digits : (s : Codes) → all (all is_digit) (split 46 s) ≡ true → all is_host_code s ≡ true
unfolding split is_host_code is_ipv6_code
split-digits [] h = refl
split-digits (c ∷ s) h = ground (arith, split-digits s, all-grow c (split 46 s))

all-octet : (parts : List Codes) → all is_octet parts ≡ true → all (all is_digit) parts ≡ true
unfolding is_octet
all-octet [] h = refl
all-octet (part ∷ parts) h = ground (arith, all-octet parts)

is_ipv4-codes : (host : Codes) → is_ipv4 (trim host) ≡ true → all is_host_code (trim host) ≡ true
unfolding is_ipv4
is_ipv4-codes host h =
    let digits = all-octet (split 46 (trim (trim host))) (ground arith) in
    split-digits (trim host)
      (subst (λ s. all (all is_digit) (split 46 s) ≡ true) (trim-idempotent host) digits)

all-ipv6 : (s : Codes) → all is_ipv6_code s ≡ true → all is_host_code s ≡ true
unfolding is_host_code
all-ipv6 [] h = refl
all-ipv6 (c ∷ s) h = ground (arith, all-ipv6 s)

lower_code-ipv6 :
    (c : ℕ) (s : Codes)
    → all is_ipv6_code (lower_code c ++ s) ≡ true
    → (length (lower_code c ++ s) ≡ suc (length s)) × (all is_ipv6_code s ≡ true)
unfolding lower_code is_ipv6_code is_digit
lower_code-ipv6 c s h = ground arith

-- No character of an IPv6 address is half of a lower case form.
length-lower : (s : Codes) → all is_ipv6_code (lower s) ≡ true → length (lower s) ≡ length s
unfolding lower
length-lower [] h = refl
length-lower (c ∷ s) h = ground (arith, length-lower s, lower_code-ipv6 c (lower s) h)

length-without_first : (b : ℕ) (s : Codes) → length (without_first b s) ≤ length s
unfolding without_first
length-without_first b [] = omega arith
length-without_first b (c ∷ s) = ground arith

length-without_last : (b : ℕ) (s : Codes) → length (without_last b s) ≤ length s
unfolding without_last
length-without_last b [] = omega arith
length-without_last b (c ∷ []) = ground arith
length-without_last b (c ∷ d ∷ s) = ground (arith, length-without_last b (d ∷ s))

-- An address: it is not empty, has at most 253 characters, and these are digits, the letters from
-- `a` to `f`, dots and colons.
unfoldable pub IsPlainTarget : Codes → Type 0
IsPlainTarget target =
    ((target == []) ≡ false) × (length target ≤ 253) × (all is_host_code target ≡ true)

ipv6_target_ok :
    (raw target : Codes) → ipv6_target raw ≡ ok target → length raw ≤ 253 → IsPlainTarget target
unfolding ipv6_target IsPlainTarget
ipv6_target_ok raw target h short =
    let inner = without_last 93 (without_first 91 raw) in
    let same : lower inner ≡ target = ground arith in
    let good : all is_ipv6_code (lower inner) ≡ true = ground arith in
    let there : (lower inner == []) ≡ false = ground arith in
    let bound : length (lower inner) ≤ 253 = ground (
      arith,
      length-lower inner good,
      length-without_last 93 (without_first 91 raw),
      length-without_first 91 raw,
    ) in
    subst IsPlainTarget same (there, bound, all-ipv6 (lower inner) good)

-- Numbers of an IPv4 address outside of those that stand for this machine, for groups and for the
-- metadata service; other texts are no such address.
unfoldable pub is_outside : List ℕ → Bool
is_outside (a ∷ b ∷ c ∷ d ∷ []) =
    leb 1 a && ltb a 224 && not (a == 127) && not (a == 169 && b == 254 && c == 169 && d == 254)
is_outside numbers = true

-- The texts `::`, `::1` and those that begin with `fe80:`.
unfoldable pub names_itself : Codes → Bool
names_itself s = s == codes "::" || s == codes "::1" || starts_with (codes "fe80:") s

unfoldable pub IsRemote : Codes → Type 0
IsRemote target =
    (names_itself target ≡ false) × (is_outside (map number_of (split 46 target)) ≡ true)

is_outside-is_refused : (numbers : List ℕ) → is_refused numbers ≡ false → is_outside numbers ≡ true
unfolding is_outside is_refused
is_outside-is_refused [] h = refl
is_outside-is_refused (a ∷ []) h = refl
is_outside-is_refused (a ∷ b ∷ []) h = refl
is_outside-is_refused (a ∷ b ∷ c ∷ []) h = refl
is_outside-is_refused (a ∷ b ∷ c ∷ d ∷ []) h = ground arith
is_outside-is_refused (a ∷ b ∷ c ∷ d ∷ e ∷ numbers) h = refl

split-first :
    (c : ℕ) (s : Codes)
    → all (all is_digit) (split 46 (c ∷ s)) ≡ true
    → (is_digit c || c == 46) ≡ true
unfolding split
split-first c s h = ground (arith, all-grow c (split 46 s))

names_itself-digits : (s : Codes) → all (all is_digit) (split 46 s) ≡ true → names_itself s ≡ false
unfolding names_itself starts_with is_digit
names_itself-digits [] h = refl
names_itself-digits (c ∷ s) h = ground (arith, split-first c s h)

split-ipv6 : (s : Codes) → all is_ipv6_code s ≡ true → split 46 s ≡ s ∷ []
unfolding split is_ipv6_code is_digit
split-ipv6 [] h = refl
split-ipv6 (c ∷ s) h = ground (arith, split-ipv6 s)

is_ipv4-IsRemote :
    (host : Codes)
    → is_ipv4 (trim host) ≡ true
    → is_refused (map number_of (split 46 (trim host))) ≡ false
    → IsRemote (trim host)
unfolding is_ipv4 IsRemote
is_ipv4-IsRemote host h fine =
    let digits = all-octet (split 46 (trim (trim host))) (ground arith) in
    (
      names_itself-digits (trim host)
          (subst (λ s. all (all is_digit) (split 46 s) ≡ true) (trim-idempotent host) digits),
      is_outside-is_refused _ fine,
    )

ipv6_target-IsRemote : (raw target : Codes) → ipv6_target raw ≡ ok target → IsRemote target
unfolding ipv6_target IsRemote names_itself is_outside
ipv6_target-IsRemote raw target h =
    let ip = lower (without_last 93 (without_first 91 raw)) in
    let same : ip ≡ target = ground arith in
    let good : all is_ipv6_code ip ≡ true = ground arith in
    let named : names_itself ip ≡ false = ground arith in
    subst IsRemote same (named, rw (split-ipv6 ip good) refl)

accepted-IsPlainTarget :
    (host target : Codes) → is_allowed_sftp_target host ≡ ok target → IsPlainTarget target
unfolding is_allowed_sftp_target IsPlainTarget
accepted-IsPlainTarget host target h =
    ground (arith, is_ipv4-codes host, ipv6_target_ok (trim host) target)

accepted-IsRemote :
    (host target : Codes) → is_allowed_sftp_target host ≡ ok target → IsRemote target
unfolding is_allowed_sftp_target
accepted-IsRemote host target h =
    ground (arith, is_ipv4-IsRemote host, ipv6_target-IsRemote (trim host) target)

-- An address that the code accepts is a text of digits, the letters from `a` to `f`, dots and colons, not
-- empty and of at most 253 characters. It is not `::` or `::1` and does not begin with `fe80:`, and an
-- address of four numbers begins with one from 1 to 223 other than 127 and is not 169.254.169.254.
pub is_allowed_sftp_target-IsPlainTarget :
    (host target : Codes)
    → is_allowed_sftp_target host ≡ ok target
    → IsPlainTarget target × IsRemote target
unfolding is_allowed_sftp_target
is_allowed_sftp_target-IsPlainTarget host target h =
    (accepted-IsPlainTarget host target h, accepted-IsRemote host target h)
