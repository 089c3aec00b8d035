-- ===== src/Common/Words.antt =====
-- Texts that the program takes apart: lists of UTF-16 code units. A literal is ASCII.
use Prim.Native.Nat.{ℕ, ◌+◌, ◌-◌}
use Prim.Native.Char.{code}
use Prim.Native.String.{String}
use mathlib.Core.Path.{◌≡◌, refl}
use mathlib.Core.Logic.{◌↔◌}
use mathlib.Core.Bool.{Bool, true, false, ◌&&◌, ◌||◌}
use mathlib.Core.List.{List, [], ◌∷◌, ◌++◌}
use native.Mathlib.Omega.{arith}
use proxora.Common.Tests.{Eq, nat_eq, ◌==◌, leb, if◌then◌else◌}

abbrev pub Codes : Type 0
Codes = List ℕ

abbrev pub codes : String → Codes
codes String.[] = []
codes (String.◌∷◌ c s) = code c ∷ codes s

abbrev pub codes_beq : Codes → Codes → Bool
codes_beq [] [] = true
codes_beq [] (d ∷ t) = false
codes_beq (c ∷ s) [] = false
codes_beq (c ∷ s) (d ∷ t) = c == d && codes_beq s t

pub codes_beq_iff : (s t : Codes) → (codes_beq s t ≡ true) ↔ (s ≡ t)
codes_beq_iff [] [] = ground arith
codes_beq_iff [] (d ∷ t) = ground arith
codes_beq_iff (c ∷ s) [] = ground arith
codes_beq_iff (c ∷ s) (d ∷ t) = ground (arith, codes_beq_iff s t)

instance abbrev pub codes_eq : Eq Codes
codes_eq = record { test = codes_beq; test_iff = codes_beq_iff }

-- `s.startsWith(prefix)`
unfoldable pub starts_with : (prefix s : Codes) → Bool
starts_with [] s = true
starts_with (c ∷ prefix) [] = false
starts_with (c ∷ prefix) (d ∷ s) = c == d && starts_with prefix s

-- `s.endsWith(suffix)`
unfoldable pub ends_with : (suffix s : Codes) → Bool
ends_with suffix [] = suffix == []
ends_with suffix (c ∷ s) = suffix == c ∷ s || ends_with suffix s

-- `s.includes(part)`
unfoldable pub contains : (part s : Codes) → Bool
contains part [] = part == []
contains part (c ∷ s) = starts_with part (c ∷ s) || contains part s

-- one character in front of the first part
abbrev pub grow : ℕ → List Codes → List Codes
grow c [] = (c ∷ []) ∷ []
grow c (part ∷ parts) = (c ∷ part) ∷ parts

-- `s.split(separator)` for a separator of one character
unfoldable pub split : (separator : ℕ) → Codes → List Codes
split separator [] = [] ∷ []
split separator (c ∷ s) =
    let parts = split separator s in if c == separator then [] ∷ parts else grow c parts

-- each part behind a separator
unfoldable pub separated : (separator : ℕ) → List Codes → Codes
separated separator [] = []
separated separator (part ∷ parts) = separator ∷ (part ++ separated separator parts)

-- `toLowerCase` for ASCII and the two other characters whose lower case form has an ASCII letter: the
-- Kelvin sign, and the capital i with a dot, which becomes an i and a dot above.
unfoldable pub lower_code : ℕ → Codes
lower_code c =
    if c == 8490
    then 107 ∷ []
    else if c == 304
    then 105 ∷ 775 ∷ []
    else if leb 65 c && leb c 90
    then (c + 32) ∷ []
    else c ∷ []

unfoldable pub lower : Codes → Codes
lower [] = []
lower (c ∷ s) = lower_code c ++ lower s

-- The characters other than ASCII whose upper case form has an ASCII letter, with that form: the long s
-- and the i without a dot, ligatures, and letters that come apart into a letter and a mark.
unfoldable pub upper_forms : List (ℕ × Codes)
upper_forms =
    (383, 83 ∷ [])
    ∷ (305, 73 ∷ [])
    ∷ (223, 83 ∷ 83 ∷ [])
    ∷ (329, 700 ∷ 78 ∷ [])
    ∷ (496, 74 ∷ 780 ∷ [])
    ∷ (7830, 72 ∷ 817 ∷ [])
    ∷ (7831, 84 ∷ 776 ∷ [])
    ∷ (7832, 87 ∷ 778 ∷ [])
    ∷ (7833, 89 ∷ 778 ∷ [])
    ∷ (7834, 65 ∷ 702 ∷ [])
    ∷ (64256, 70 ∷ 70 ∷ [])
    ∷ (64257, 70 ∷ 73 ∷ [])
    ∷ (64258, 70 ∷ 76 ∷ [])
    ∷ (64259, 70 ∷ 70 ∷ 73 ∷ [])
    ∷ (64260, 70 ∷ 70 ∷ 76 ∷ [])
    ∷ (64261, 83 ∷ 84 ∷ [])
    ∷ (64262, 83 ∷ 84 ∷ [])
    ∷ []

abbrev form_of : ℕ → List (ℕ × Codes) → Codes
form_of c [] = if leb 97 c && leb c 122 then (c - 32) ∷ [] else c ∷ []
form_of c ((d, form) ∷ forms) = if c == d then form else form_of c forms

-- `toUpperCase` for ASCII and the characters of that list.
unfoldable pub upper_code : ℕ → Codes
unfolding upper_forms
upper_code c = form_of c upper_forms

unfoldable pub upper : Codes → Codes
upper [] = []
upper (c ∷ s) = upper_code c ++ upper s

-- The white space that `trim` removes, line ends included.
unfoldable pub is_space : ℕ → Bool
is_space c =
    leb 9 c && leb c 13
    || c == 32
    || c == 160
    || c == 5760
    || leb 8192 c && leb c 8202
    || c == 8232
    || c == 8233
    || c == 8239
    || c == 8287
    || c == 12288
    || c == 65279

unfoldable pub trim_start : Codes → Codes
trim_start [] = []
trim_start (c ∷ s) = let rest = trim_start s in if is_space c then rest else c ∷ s

-- A character in front of what is left of the rest: a space goes if nothing is left.
abbrev pub keep_before : ℕ → Codes → Codes
keep_before c [] = if is_space c then [] else c ∷ []
keep_before c (d ∷ s) = c ∷ d ∷ s

unfoldable pub trim_end : Codes → Codes
trim_end [] = []
trim_end (c ∷ s) = keep_before c (trim_end s)

unfoldable pub trim : Codes → Codes
trim s = trim_end (trim_start s)

codes_tests :
    (split 47 (codes "/a//b") ≡ codes "" ∷ codes "a" ∷ codes "" ∷ codes "b" ∷ [])
    × (trim (codes " a b  ") ≡ codes "a b")
    × (lower (codes "Ab/Z") ≡ codes "ab/z")
    × (upper (223 ∷ codes "a1") ≡ codes "SSA1")
    × (contains (codes "ku") (codes "backup") ≡ true)
    × (ends_with (codes ".part") (codes "x.part") ≡ true)
unfolding split trim_start trim_end trim is_space lower lower_code upper upper_code contains
    starts_with ends_with
codes_tests = (refl, refl, refl, refl, refl, refl)
