-- ===== src/RateLimit/Fresh.antt =====
-- A key that has no counter, from its first call on.
use text.Mathlib.TextEquality.{eq_iff}
use proxora.Common.{
  ℕ, ◌+◌, ◌≤◌, String, List, [], ◌∷◌, true, not, none, some, ◌≡◌, arith, filter, lookup,
  lookup-insert, string_eq, ==_refl, ltb,
}
use proxora.RateLimit.{Bucket, Buckets, prune, rate_limit}
use proxora.RateLimit.Window.{Call, answer, passed, calls_with, lesser, IsInWindow, passed-window}

lookup-filter-none :
    (key : String) (now : ℕ) (buckets : Buckets)
    → lookup key buckets ≡ none
    → lookup key (filter (λ kv. not (ltb kv.1.reset_at now)) buckets) ≡ none
unfolding lookup
lookup-filter-none key now [] absent = cc
lookup-filter-none key now ((k, v) ∷ buckets) absent =
    ground (arith, lookup-filter-none key now buckets)

lookup-prune-none :
    (key : String) (now : ℕ) (buckets : Buckets)
    → lookup key buckets ≡ none
    → lookup key (prune now buckets) ≡ none
unfolding prune
lookup-prune-none key now buckets absent = ground (arith, lookup-filter-none key now buckets absent)

answer_first :
    (c : Call) (buckets : Buckets)
    → lookup c.key buckets ≡ none
    → (lookup c.key (answer c buckets).1
        ≡ some (record { count = 1; reset_at = c.now + c.window_ms }))
      × ((answer c buckets).0 ≡ true)
unfolding rate_limit
answer_first c buckets absent =
    let kept = lookup-prune-none c.key c.now buckets absent in
    let new : Bucket = record { count = 1; reset_at = c.now + c.window_ms } in
    rw kept
      (ground (arith, lookup-insert c.key c.key new (prune c.now buckets), eq_iff c.key c.key))

-- Of calls that begin with the first one of a key and that all come before its counter runs out, those with the
-- key pass until the limit is reached and none does from there: the number that pass is the lesser of
-- their number and the limit, whatever the calls with other keys, under a limit of one at least.
pub passed-fresh :
    (c : Call) (calls : List Call) (buckets : Buckets)
    → lookup c.key buckets ≡ none
    → 1 ≤ c.limit
    → IsInWindow c.key c.limit (c.now + c.window_ms) calls
    → passed c.key buckets (c ∷ calls) ≡ lesser (calls_with c.key (c ∷ calls)) c.limit
unfolding passed calls_with lesser
passed-fresh c calls buckets absent positive window =
    let first = answer_first c buckets absent in
    let rest =
      passed-window c.key c.limit calls (answer c buckets).1
        (record { count = 1; reset_at = c.now + c.window_ms }) first.0 window in
    rw first.1 (rw rest (rw (==_refl c.key) (ground arith)))
