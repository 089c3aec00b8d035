-- ===== src/Common/Text.antt =====
-- Strings: joining them, as template literals do, and the decimal notation of a number.
pub mod Laws
use Prim.Native.Nat.{ℕ, zero, suc, ◌+◌, ◌/◌, ◌%◌, ◌<◌, ◌≤◌}
use Prim.Native.Char.{Char}
use Prim.Native.String
use Prim.Native.String.{String}
use mathlib.Core.Path.{◌≡◌, refl}
use native.Mathlib.Omega.{arith}
use text.Mathlib.TextLemmas.{nil-append, cons-append}
use proxora.Common.Tests.{if◌then◌else◌, ltb}

-- `${s}${t}`
infixr 65 ◌⧺◌
abbrev pub ◌⧺◌ : String → String → String
s ⧺ t = String.◌++◌ s t

digit : ℕ → String
digit zero = "0"
digit (suc zero) = "1"
digit (suc (suc zero)) = "2"
digit (suc (suc (suc zero))) = "3"
digit (suc (suc (suc (suc zero)))) = "4"
digit (suc (suc (suc (suc (suc zero))))) = "5"
digit (suc (suc (suc (suc (suc (suc zero)))))) = "6"
digit (suc (suc (suc (suc (suc (suc (suc zero))))))) = "7"
digit (suc (suc (suc (suc (suc (suc (suc (suc zero)))))))) = "8"
digit _ = "9"

digits : ℕ → ℕ → String
digits zero n = ""
digits (suc fuel) n =
    let more = digits fuel (n / 10) ⧺ digit (n % 10) in if ltb n 10 then digit n else more

-- `${n}` for an integer below 10^21, where JavaScript writes no exponent.
unfoldable pub decimal : ℕ → String
unfolding digits digit
decimal n = digits (suc n) n

decimal_tests : decimal 9074 ≡ "9074"
unfolding decimal
decimal_tests = refl
