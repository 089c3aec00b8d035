-- ===== src/RateLimit/Tests.antt =====
-- Runs of the limiter, and the theorems at concrete calls.
use text.Mathlib.TextEquality.{eq_iff}
use proxora.Common.{ℕ, List, [], ◌∷◌, true, false, ◌≡◌, refl, arith, lookup, insert, string_eq}
use proxora.RateLimit.{Buckets, rate_limit}
use proxora.RateLimit.Window.{Call, answer, passed, calls_with, lesser, IsInWindow}
use proxora.RateLimit.Fresh.{passed-fresh}

running : Unit {0}
unfolding rate_limit passed calls_with lesser lookup insert
running = tt

abbrev login : ℕ → Call
login now = record { key = "login:10.0.0.7"; limit = 2; window_ms = 60000; now = now }

abbrev other : ℕ → Call
other now = record { key = "login:10.0.0.8"; limit = 5; window_ms = 60000; now = now }

abbrev calls : List Call
calls = login 2000 ∷ other 2500 ∷ login 3000 ∷ login 61000 ∷ []

abbrev one_used : Buckets
one_used = ("login:10.0.0.7", record { count = 1; reset_at = 61000 }) ∷ []

third_fails : (answer (login 3000) (answer (login 2000) one_used).1).0 ≡ false
unfolding running
third_fails = refl

passes_after_the_window : (answer (login 61001) one_used).0 ≡ true
unfolding running
passes_after_the_window = refl

in_window : IsInWindow "login:10.0.0.7" 2 61000 calls
in_window = (
  (omega arith, λ e. refl),
  (
    (omega arith, λ e. cc ((eq_iff "login:10.0.0.8" "login:10.0.0.7").1 e)),
    ((omega arith, λ e. refl), ((omega arith, λ e. refl), tt)),
  ),
)

passed-fresh_example :
    passed "login:10.0.0.7" [] (login 1000 ∷ calls)
    ≡ lesser (calls_with "login:10.0.0.7" (login 1000 ∷ calls)) 2
unfolding running
passed-fresh_example = passed-fresh (login 1000) calls [] refl (omega arith) in_window
