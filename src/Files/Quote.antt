-- ===== src/Files/Quote.antt =====
-- lib/guest-files.ts, shSingleQuote, against the way a POSIX shell reads a word.
use mathlib.Core.List.{append_assoc}
use proxora.Common.{
  ℕ, [], ◌∷◌, ◌++◌, Bool, Option, none, some, ◌≡◌, refl, arith, nat_eq, Codes, codes, leb, ◌&&◌,
  ◌||◌, ◌==◌, if◌then◌else◌,
}

-- `'` is 39 and the backslash is 92.
abbrev pub quoted_code : ℕ → Codes
quoted_code c = if c == 39 then codes "'\\''" else c ∷ []

-- `value.replace(/'/g, …)`
unfoldable pub quoted_codes : Codes → Codes
quoted_codes [] = []
quoted_codes (c ∷ value) = quoted_code c ++ quoted_codes value

unfoldable pub sh_single_quote : Codes → Codes
sh_single_quote value = 39 ∷ quoted_codes value ++ 39 ∷ []

-- Where a shell stands in a word: outside of quotes, between single quotes, or behind a backslash.
pub data Mode : Type 0 where
  bare : Mode
  single : Mode
  escaped : Mode

-- A character that stands for itself outside of quotes: a letter, a digit, or one of `-./_`.
unfoldable pub is_literal : ℕ → Bool
is_literal c = leb 45 c && leb c 57 || leb 65 c && leb c 90 || c == 95 || leb 97 c && leb c 122

abbrev pub put : ℕ → Option Codes → Option Codes
put c none = none
put c (some word) = some (c ∷ word)

-- The word that a text is as a whole. It is none if a quote is open at the end, or if a character
-- outside of quotes ends the word, opens another construct or is expanded.
unfoldable pub shell_word : Mode → Codes → Option Codes
shell_word bare [] = some []
shell_word single [] = none
shell_word escaped [] = none
shell_word bare (c ∷ s) =
    let in_quotes = shell_word single s in
    let in_escape = shell_word escaped s in
    let rest = shell_word bare s in
    if c == 39
    then in_quotes
    else if c == 92
    then in_escape
    else if is_literal c
    then put c rest
    else none
shell_word single (c ∷ s) =
    let rest = shell_word single s in
    let closed = shell_word bare s in if c == 39 then closed else put c rest
shell_word escaped (c ∷ s) = let rest = shell_word bare s in if c == 10 then rest else put c rest

abbrev pub put_all : Codes → Option Codes → Option Codes
put_all [] word = word
put_all (c ∷ s) word = put c (put_all s word)

shell_word-quoted :
    (value rest : Codes)
    → shell_word single (quoted_codes value ++ 39 ∷ rest) ≡ put_all value (shell_word bare rest)
unfolding shell_word quoted_codes is_literal
shell_word-quoted [] rest = refl
shell_word-quoted (c ∷ value) rest = ground (arith, shell_word-quoted value rest)

-- In front of any text, a value in quotes is read as the value itself, character by character, and the
-- shell goes on outside of quotes behind it.
pub shell_word-sh_single_quote :
    (value rest : Codes)
    → shell_word bare (sh_single_quote value ++ rest) ≡ put_all value (shell_word bare rest)
unfolding shell_word sh_single_quote
shell_word-sh_single_quote value rest =
    rw (append_assoc (quoted_codes value) (39 ∷ []) rest) (shell_word-quoted value rest)
