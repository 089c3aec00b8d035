-- ===== src/RateLimit.antt =====
-- server/http/rate-limit.ts: counters of calls by key. The clock is an argument.
pub mod Window
pub mod Fresh
mod Tests
use proxora.Common.{
  ℕ, ◌+◌, String, List, [], ◌∷◌, Bool, true, false, not, Option, none, some, length, filter, lookup,
  insert, string_eq, ltb, leb, if◌then◌else◌,
}

pub record Bucket : Type 0 where
  pub count : ℕ
  pub reset_at : ℕ

abbrev pub Buckets : Type 0
Buckets = List (String × Bucket)

-- Entries are dropped from 256 keys on only.
unfoldable pub prune : ℕ → Buckets → Buckets
prune now buckets =
    if ltb (length buckets) 256 then buckets else filter (λ kv. not (ltb kv.1.reset_at now)) buckets

-- `!current || current.resetAt < now`
abbrev pub is_over : ℕ → Option Bucket → Bool
is_over now none = true
is_over now (some current) = ltb current.reset_at now

abbrev pub count_of : Option Bucket → ℕ
count_of none = 0
count_of (some current) = current.count

abbrev pub reset_of : Option Bucket → ℕ
reset_of none = 0
reset_of (some current) = current.reset_at

unfoldable pub rate_limit : String → (limit window_ms now : ℕ) → Buckets → Bool × Buckets
unfolding prune
rate_limit key limit window_ms now buckets =
    let kept = prune now buckets in
    let current = lookup key kept in
    if is_over now current
    then (true, insert key (record { count = 1; reset_at = now + window_ms }) kept)
    else if leb limit (count_of current)
    then (false, kept)
    else (
      true,
      insert key (record { count = count_of current + 1; reset_at = reset_of current }) kept,
    )
