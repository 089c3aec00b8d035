-- ===== src/Vmid.antt =====
-- lib/next-vmid.ts: the number that a new guest gets. Numbers below `min` and those that are no integers
-- play no part, so the numbers in use are natural numbers here. The loop that counts up runs on fuel.
pub mod Search
pub mod Free
mod Tests
use proxora.Common.{
  ℕ, zero, suc, ◌+◌, ◌-◌, List, [], ◌∷◌, Bool, true, false, not, Option, none, some, filter, unique,
  includes, nat_eq, leb, ltb, ◌||◌, if◌then◌else◌,
}

unfoldable pub min_vmid : ℕ
min_vmid = 100

-- `new Set(ids).has(id) || Boolean(skip?.(id))`
unfoldable pub blocked : List ℕ → (ℕ → Bool) → ℕ → Bool
blocked ids skip id = includes ids id || skip id

-- `Math.max(...ids)` of `id` and more ids
abbrev pub max_of : ℕ → List ℕ → ℕ
max_of id [] = id
max_of id (n ∷ ids) = let rest = max_of n ids in if leb id rest then rest else id

-- `for (let id = min + n - 1; id >= min; id -= 1)`: the loop has `n` rounds.
unfoldable pub search_down : (ℕ → Bool) → (min n : ℕ) → Option ℕ
search_down is_blocked min zero = none
search_down is_blocked min (suc n) =
    let rest = search_down is_blocked min n in
    if not (is_blocked (min + n)) then some (min + n) else rest

-- `while (blocked(up)) up += 1`
unfoldable pub search_up : (ℕ → Bool) → (fuel up : ℕ) → Option ℕ
search_up is_blocked zero up = none
search_up is_blocked (suc fuel) up =
    let rest = search_up is_blocked fuel (up + 1) in if is_blocked up then rest else some up

abbrev pub or_up : Option ℕ → Option ℕ → Option ℕ
or_up none up = up
or_up (some id) up = some id

pub pick : (ℕ → Bool) → (fuel min : ℕ) → List ℕ → Option ℕ
pick is_blocked fuel min [] = search_up is_blocked fuel min
pick is_blocked fuel min (id ∷ ids) =
    let highest = max_of id ids in
    or_up (search_down is_blocked min (highest - min)) (search_up is_blocked fuel (highest + 1))

unfoldable pub next_smaller_vmid : (fuel : ℕ) → List ℕ → (min : ℕ) → (skip : ℕ → Bool) → Option ℕ
unfolding pick
next_smaller_vmid fuel used min skip =
    let ids = unique (filter (leb min) used) in pick (blocked ids skip) fuel min ids
