-- ===== src/Vmid/Free.antt =====
-- Which number is picked.
use proxora.Common.{
  ℕ, ◌+◌, ◌-◌, ◌≤◌, ◌<◌, List, [], ◌∷◌, Bool, true, false, Option, some, ◌≡◌, refl, arith, filter,
  unique, includes, nat_eq, leb, Option-cases, inl, inr, ◌⊎◌, ==_refl, includes-unique,
  includes-filter, Bool-cases,
}
use proxora.Vmid.{blocked, search_down, max_of, pick, next_smaller_vmid}
use proxora.Vmid.Search.{search_down-greatest, search_down-none, search_up-least, search_up-reaches}

-- All numbers of a range are blocked.
abbrev pub AllBlocked : (ℕ → Bool) → (from to : ℕ) → Type 0
AllBlocked is_blocked from to = (k : ℕ) → from ≤ k → k < to → is_blocked k ≡ true

-- The number is free: the least from `min` on where none is in use; else the greatest below the highest
-- in use; else the least above it.
pub IsPick : (ℕ → Bool) → (min : ℕ) → List ℕ → ℕ → Type 0
IsPick is_blocked min [] id = (is_blocked id ≡ false) × (min ≤ id) × AllBlocked is_blocked min id
IsPick is_blocked min (n ∷ ids) id =
    let highest = max_of n ids in
    (is_blocked id ≡ false)
    × (min ≤ id)
    × (((id < highest) × AllBlocked is_blocked (id + 1) highest)
        ⊎ ((highest < id)
            × AllBlocked is_blocked min highest
            × AllBlocked is_blocked (highest + 1) id))

-- where the upward loop starts
abbrev pub loop_start : ℕ → List ℕ → ℕ
loop_start min [] = min
loop_start min (n ∷ ids) = max_of n ids + 1

abbrev pub Picks : (ℕ → Bool) → (min : ℕ) → List ℕ → Option ℕ → Type 0
Picks is_blocked min ids result = (id : ℕ) × (result ≡ some id) × IsPick is_blocked min ids id

pick-Picks :
    (is_blocked : ℕ → Bool) (fuel min free : ℕ) (ids : List ℕ)
    → (min ≤ loop_start min ids)
    → is_blocked free ≡ false
    → loop_start min ids ≤ free
    → free < loop_start min ids + fuel
    → Picks is_blocked min ids (pick is_blocked fuel min ids)
unfolding pick IsPick
pick-Picks is_blocked fuel min free [] ok f lo hi =
    let found = search_up-reaches is_blocked min fuel min free f lo hi in
    (found.0, found.1, search_up-least is_blocked min fuel min found.0 found.1)
pick-Picks is_blocked fuel min free (n ∷ ids) ok f lo hi =
    let m = max_of n ids in
    elim (Option-cases (search_down is_blocked min (m - min))) [
      | inl none_below ↦
          let found = search_up-reaches is_blocked min fuel (m + 1) free f lo hi in
          let least = search_up-least is_blocked min fuel (m + 1) found.0 found.1 in
          let below = search_down-none is_blocked min (m - min) none_below in
          rw none_below (
            found.0,
            found.1,
            (
              least.0,
              omega (arith, least.1, ok),
              inr (omega (arith, least.1), λ k l h. below k l (omega arith), least.2),
            ),
          )
      | inr below ↦
          let best = search_down-greatest is_blocked min (m - min) below.0 below.1 in
          rw below.1 (
            below.0,
            refl,
            (
              best.0,
              best.1,
              inl (
                omega (arith, best.1, best.2),
                λ k l h. best.3 k (omega arith) (omega (arith, best.1, best.2)),
              ),
            ),
          )
    ]

max_of-le : (n : ℕ) (ids : List ℕ) → n ≤ max_of n ids
max_of-le n [] = omega arith
max_of-le n (m ∷ ids) = ground arith

-- The numbers in use that count.
abbrev pub counted_ids : List ℕ → (min : ℕ) → List ℕ
counted_ids used min = unique (filter (leb min) used)

loop_start-le :
    (min : ℕ) (ids : List ℕ)
    → ((n : ℕ) → includes ids n ≡ true → min ≤ n)
    → min ≤ loop_start min ids
unfolding includes
loop_start-le min [] big = omega arith
loop_start-le min (n ∷ ids) big =
    let first = big n (rw (==_refl n)) in omega (arith, first, max_of-le n ids)

counted_ids-le : (used : List ℕ) (min n : ℕ) → includes (counted_ids used min) n ≡ true → min ≤ n
counted_ids-le used min n h =
    ground (arith, includes-unique (filter (leb min) used) n, includes-filter (leb min) used n)

-- Given fuel for some free number from the start of the upward loop on, a number is picked, and it is free:
-- the least from the minimum on where no number counts as used; else the greatest below the highest used
-- number; else the least above that.
pub next_smaller_vmid-Picks :
    (fuel : ℕ) (used : List ℕ) (min : ℕ) (skip : ℕ → Bool) (free : ℕ)
    → blocked (counted_ids used min) skip free ≡ false
    → loop_start min (counted_ids used min) ≤ free
    → free < loop_start min (counted_ids used min) + fuel
    → Picks
        (blocked (counted_ids used min) skip)
        min
        (counted_ids used min)
        (next_smaller_vmid fuel used min skip)
unfolding next_smaller_vmid
next_smaller_vmid-Picks fuel used min skip free f lo hi =
    pick-Picks (blocked (counted_ids used min) skip) fuel min free (counted_ids used min)
      (loop_start-le min (counted_ids used min) (counted_ids-le used min)) f lo hi

includes-max_of : (n : ℕ) (ids : List ℕ) (k : ℕ) → includes (n ∷ ids) k ≡ true → k ≤ max_of n ids
unfolding includes
includes-max_of n [] k h = ground (arith, nat_eq.test_iff n k)
includes-max_of n (m ∷ ids) k h = ground (arith, includes-max_of m ids k, nat_eq.test_iff n k)

above_is_free :
    (min : ℕ) (ids : List ℕ)
    → ((n : ℕ) → includes ids n ≡ true → min ≤ n)
    → blocked ids (λ id. false) (loop_start min ids) ≡ false
unfolding blocked includes
above_is_free min [] big = refl
above_is_free min (n ∷ ids) big = elim (Bool-cases (includes (n ∷ ids) (max_of n ids + 1))) [
  | inl t ↦ let le = includes-max_of n ids (max_of n ids + 1) t in ground arith
  | inr f ↦ rw f refl
]

-- Without numbers to skip a number is always picked: one round of the upward loop is enough.
pub next_smaller_vmid-total :
    (used : List ℕ) (min : ℕ)
    → Picks
        (blocked (counted_ids used min) (λ id. false))
        min
        (counted_ids used min)
        (next_smaller_vmid 1 used min (λ id. false))
next_smaller_vmid-total used min =
    next_smaller_vmid-Picks 1 used min (λ id. false) (loop_start min (counted_ids used min))
      (above_is_free min (counted_ids used min) (counted_ids-le used min)) (omega arith)
      (omega arith)
