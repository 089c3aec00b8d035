-- ===== src/Files/Target.antt =====
-- lib/guest-files.ts, isAllowedSftpTarget to hasGuestSshAuth, and isIpv4 of lib/create-ip.ts: where and
-- how to sign in over SSH. 46 is `.`, 58 is `:`, 91 and 93 are the brackets.
pub mod Laws
use proxora.Common.{
  ℕ, zero, suc, ◌+◌, ◌-◌, ◌*◌, List, [], ◌∷◌, ◌++◌, Bool, true, false, not, Option, none, some, map,
  any, all, includes, codes_eq, nat_eq, Codes, codes, starts_with, split, trim, lower, length, leb,
  ltb, ◌&&◌, ◌||◌, ◌==◌, if◌then◌else◌,
}

pub data TargetError : Type 0 where
  invalid_host : TargetError
  invalid_port : TargetError

pub data Checked {ℓ} (A : Type ℓ) : Type ℓ where
  ok : A → Checked A
  throw : TargetError → Checked A

unfoldable pub is_digit : ℕ → Bool
is_digit c = leb 48 c && leb c 57

-- `Number(part)` for digits
unfoldable pub number_from : ℕ → Codes → ℕ
number_from n [] = n
number_from n (c ∷ s) = number_from (n * 10 + (c - 48)) s

unfoldable pub number_of : Codes → ℕ
number_of part = number_from 0 part

-- `\d{1,3}`, and at most 255
unfoldable pub is_octet : Codes → Bool
is_octet part =
    not (part == []) && leb (length part) 3 && all is_digit part && leb (number_of part) 255

unfoldable pub is_ipv4 : Codes → Bool
is_ipv4 value = let parts = split 46 (trim value) in length parts == 4 && all is_octet parts

-- Four numbers that the code takes for this machine, for groups or for the metadata service.
unfoldable pub is_refused : List ℕ → Bool
is_refused (a ∷ b ∷ c ∷ d ∷ []) =
    a == 0 || a == 127 || leb 224 a || a == 169 && b == 254 && c == 169 && d == 254
is_refused numbers = false

unfoldable pub without_first : ℕ → Codes → Codes
without_first bracket [] = []
without_first bracket (c ∷ s) = if c == bracket then s else c ∷ s

unfoldable pub without_last : ℕ → Codes → Codes
without_last bracket [] = []
without_last bracket (c ∷ []) = if c == bracket then [] else c ∷ []
without_last bracket (c ∷ d ∷ s) = c ∷ without_last bracket (d ∷ s)

-- `[0-9a-f:]`
unfoldable pub is_ipv6_code : ℕ → Bool
is_ipv6_code c = is_digit c || leb 97 c && leb c 102 || c == 58

unfoldable pub ipv6_target : Codes → Checked Codes
ipv6_target raw =
    let ip = lower (without_last 93 (without_first 91 raw)) in
    if ip == codes "::" || ip == codes "::1" || starts_with (codes "fe80:") ip
    then throw invalid_host
    else if ip == [] || not (all is_ipv6_code ip)
    then throw invalid_host
    else ok ip

unfoldable pub is_allowed_sftp_target : (host : Codes) → Checked Codes
is_allowed_sftp_target host =
    let raw = trim host in
    if raw == [] || ltb 253 (length raw)
    then throw invalid_host
    else if is_ipv4 raw
    then (if is_refused (map number_of (split 46 raw)) then throw invalid_host else ok raw)
    else if includes raw 58
    then ipv6_target raw
    else throw invalid_host

-- The port as it is given: none (22 stands for it), one that `Number` makes a natural number of, or one that it does not.
pub data GivenPort : Type 0 where
  absent : GivenPort
  whole : ℕ → GivenPort
  other : GivenPort

abbrev port_within : ℕ → Checked ℕ
port_within n = if ltb n 1 || ltb 65535 n then throw invalid_port else ok n

unfoldable pub clamp_sftp_port : GivenPort → Checked ℕ
clamp_sftp_port absent = port_within 22
clamp_sftp_port (whole n) = port_within n
clamp_sftp_port other = throw invalid_port

-- `-----BEGIN (OPENSSH |RSA |EC |DSA |ENCRYPTED )?PRIVATE KEY-----` at the begin of a text
unfoldable pub opens_key : Codes → Bool
opens_key s =
    any (λ kind. starts_with (codes "-----BEGIN " ++ kind ++ codes "PRIVATE KEY-----") s)
      (codes ""
        ∷ codes "OPENSSH "
        ∷ codes "RSA "
        ∷ codes "EC "
        ∷ codes "DSA "
        ∷ codes "ENCRYPTED "
        ∷ [])

unfoldable pub ends_line : ℕ → Bool
ends_line c = c == 10 || c == 13 || c == 8232 || c == 8233

-- `^` of a pattern with the flag `m`: at the begin and behind each line end
unfoldable pub on_some_line : (at_start : Bool) → Codes → Bool
on_some_line at_start [] = false
on_some_line at_start (c ∷ s) = at_start && opens_key (c ∷ s) || on_some_line (ends_line c) s

unfoldable pub looks_like_ssh_private_key : Codes → Bool
looks_like_ssh_private_key raw =
    let text = trim raw in
    if text == [] || ltb 32768 (length text) then false else on_some_line true text

-- An entry that is not given is the empty text, which is no password and no key.
unfoldable pub has_guest_ssh_auth : (password private_key : Codes) → Bool
has_guest_ssh_auth password private_key =
    not (trim password == []) || looks_like_ssh_private_key private_key
