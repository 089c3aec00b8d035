-- ===== src/RateLimit/Window.antt =====
-- How many calls pass within a window.
use text.Mathlib.TextEquality.{eq_iff}
use proxora.Common.{
  ℕ, ◌+◌, ◌≤◌, String, List, [], ◌∷◌, Bool, true, false, not, Option, none, some, ◌≡◌, ◌≢◌, refl,
  arith, All, filter, lookup, insert, lookup-insert, string_eq, subst, ◌-◌, ltb, leb, if◌then◌else◌,
  ◌==◌, ◌&&◌, Bool-cases, inl, inr,
}
use proxora.RateLimit.{Bucket, Buckets, prune, rate_limit, is_over, count_of, reset_of}

pub record Call : Type 0 where
  pub key : String
  pub limit : ℕ
  pub window_ms : ℕ
  pub now : ℕ

abbrev pub answer : Call → Buckets → Bool × Buckets
answer c buckets = rate_limit c.key c.limit c.window_ms c.now buckets

-- How many of the calls with the key pass.
unfoldable pub passed : String → Buckets → List Call → ℕ
passed key buckets [] = 0
passed key buckets (c ∷ calls) =
    let (ok, after) = answer c buckets in
    (if ok && c.key == key then 1 else 0) + passed key after calls

lookup-live :
    (key : String) (now : ℕ) (buckets : Buckets) (b : Bucket)
    → lookup key buckets ≡ some b
    → now ≤ b.reset_at
    → lookup key (filter (λ kv. not (ltb kv.1.reset_at now)) buckets) ≡ some b
unfolding lookup
lookup-live key now [] b found live = cc
lookup-live key now ((k, v) ∷ buckets) b found live = ground (arith, lookup-live key now buckets b)

-- Pruning keeps what has not run out.
lookup-prune :
    (key : String) (now : ℕ) (buckets : Buckets) (b : Bucket)
    → lookup key buckets ≡ some b
    → now ≤ b.reset_at
    → lookup key (prune now buckets) ≡ some b
unfolding prune
lookup-prune key now buckets b found live = ground (arith, lookup-live key now buckets b found live)

-- What `rate_limit` does once the table is pruned.
abbrev after_prune : Call → Buckets → Option Bucket → Bool × Buckets
after_prune c kept current =
    if is_over c.now current
    then (true, insert c.key (record { count = 1; reset_at = c.now + c.window_ms }) kept)
    else if leb c.limit (count_of current)
    then (false, kept)
    else (
      true,
      insert c.key (record { count = count_of current + 1; reset_at = reset_of current }) kept,
    )

answer_as :
    (c : Call) (buckets : Buckets)
    → answer c buckets ≡ (let kept = prune c.now buckets in after_prune c kept (lookup c.key kept))
unfolding rate_limit
answer_as c buckets = refl

lookup-after_prune :
    (key : String) (c : Call) (kept : Buckets) (b : Bucket) (current : Option Bucket)
    → lookup key kept ≡ some b
    → c.key ≢ key
    → lookup key (after_prune c kept current).1 ≡ some b
lookup-after_prune key c kept b none found other = ground (
  arith,
  lookup-insert c.key key (record { count = 1; reset_at = c.now + c.window_ms }) kept,
  eq_iff c.key key,
)
lookup-after_prune key c kept b (some current) found other = ground (
  arith,
  lookup-insert c.key key (record { count = 1; reset_at = c.now + c.window_ms }) kept,
  lookup-insert c.key key (record { count = current.count + 1; reset_at = current.reset_at }) kept,
  eq_iff c.key key,
)

-- A call with another key leaves the counter alone.
answer_other :
    (key : String) (c : Call) (buckets : Buckets) (b : Bucket)
    → lookup key buckets ≡ some b
    → c.now ≤ b.reset_at
    → c.key ≢ key
    → lookup key (answer c buckets).1 ≡ some b
unfolding rate_limit
answer_other key c buckets b found live other =
    lookup-after_prune key c (prune c.now buckets) b (lookup c.key (prune c.now buckets))
      (lookup-prune key c.now buckets b found live) other

-- The counter that a call with its key leaves.
abbrev counted : Bool → Bucket → Bucket
counted true b = b
counted false b = record { count = b.count + 1; reset_at = b.reset_at }

lookup-after_prune_same :
    (c : Call) (kept : Buckets) (b : Bucket)
    → lookup c.key kept ≡ some b
    → c.now ≤ b.reset_at
    → (lookup c.key (after_prune c kept (some b)).1 ≡ some (counted (leb c.limit b.count) b))
      × ((after_prune c kept (some b)).0 ≡ not (leb c.limit b.count))
lookup-after_prune_same c kept b found live =
    let new : Bucket = record { count = b.count + 1; reset_at = b.reset_at } in
    ground (arith, lookup-insert c.key c.key new kept, eq_iff c.key c.key)

answer_same :
    (c : Call) (buckets : Buckets) (b : Bucket)
    → lookup c.key buckets ≡ some b
    → c.now ≤ b.reset_at
    → (lookup c.key (answer c buckets).1 ≡ some (counted (leb c.limit b.count) b))
      × ((answer c buckets).0 ≡ not (leb c.limit b.count))
unfolding rate_limit
answer_same c buckets b found live =
    let kept = lookup-prune c.key c.now buckets b found live in
    rw kept (lookup-after_prune_same c (prune c.now buckets) b kept live)

-- How many of the calls have the key.
unfoldable pub calls_with : String → List Call → ℕ
calls_with key [] = 0
calls_with key (c ∷ calls) = (if c.key == key then 1 else 0) + calls_with key calls

unfoldable pub lesser : ℕ → ℕ → ℕ
lesser m n = if leb m n then m else n

-- No call of the window is later than `reset_at`, and those with the key have one limit.
abbrev pub IsInWindow : String → (limit reset_at : ℕ) → List Call → Type 0
IsInWindow key limit reset_at calls =
    All (λ c. (c.now ≤ reset_at) × (c.key ≡ key → c.limit ≡ limit)) calls

answer_same_key :
    (key : String) (c : Call) (buckets : Buckets) (b : Bucket) (full : Bool)
    → c.key ≡ key
    → leb c.limit b.count ≡ full
    → lookup key buckets ≡ some b
    → c.now ≤ b.reset_at
    → (lookup key (answer c buckets).1 ≡ some (counted full b)) × ((answer c buckets).0 ≡ not full)
answer_same_key key c buckets b full same is_full found live =
    subst
      (λ k.
        lookup k buckets ≡ some b
        → (lookup k (answer c buckets).1 ≡ some (counted full b))
          × ((answer c buckets).0 ≡ not full))
      same
      (λ f.
        subst
          (λ d.
            (lookup c.key (answer c buckets).1 ≡ some (counted d b))
            × ((answer c buckets).0 ≡ not d))
          is_full (answer_same c buckets b f live))
      found

-- While a counter has not run out, calls with its key pass until the limit is reached and none does
-- from there: the number that pass is the lesser of their number and of what is left of the limit,
-- whatever the calls with other keys. They share one limit, and none of the calls is later than the reset.
pub passed-window :
    (key : String) (limit : ℕ) (calls : List Call) (buckets : Buckets) (b : Bucket)
    → lookup key buckets ≡ some b
    → IsInWindow key limit b.reset_at calls
    → passed key buckets calls ≡ lesser (calls_with key calls) (limit - b.count)
unfolding passed calls_with lesser
passed-window key limit [] buckets b found window = ground arith
passed-window key limit (c ∷ calls) buckets b found window = elim (Bool-cases (c.key == key)) [
  | inl same ↦
      let key_is = (eq_iff c.key key).0 same in
      let limit_is = window.0.1 key_is in
      elim (Bool-cases (leb c.limit b.count)) [
        | inl full ↦
            let after = answer_same_key key c buckets b true key_is full found window.0.0 in
            let rest = passed-window key limit calls (answer c buckets).1 b after.0 window.1 in
            rw same (rw after.1 (rw rest (ground arith)))
        | inr room ↦
            let after = answer_same_key key c buckets b false key_is room found window.0.0 in
            let rest =
              passed-window key limit calls (answer c buckets).1 (counted false b) after.0
                window.1 in
            rw same (rw after.1 (rw rest (ground arith)))
      ]
  | inr other ↦
      let after =
        answer_other key c buckets b found window.0.0 (λ same. ground (arith, eq_iff c.key key)) in
      let rest = passed-window key limit calls (answer c buckets).1 b after window.1 in
      rw other (rw rest (ground arith))
]
