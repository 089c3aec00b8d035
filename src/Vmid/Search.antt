-- ===== src/Vmid/Search.antt =====
-- The two loops.
use proxora.Common.{
  ℕ, zero, suc, ◌+◌, ◌≤◌, ◌<◌, Bool, true, false, none, some, ◌≡◌, refl, arith, Bool-cases, inl,
  inr, ltb, subst,
}
use proxora.Vmid.{search_down, search_up}

module _ (is_blocked : ℕ → Bool) (min : ℕ) where
  blocked_up_to :
      (k m : ℕ)
      → is_blocked m ≡ true
      → (k < m → is_blocked k ≡ true)
      → k < m + 1
      → is_blocked k ≡ true
  blocked_up_to k m b below le = elim (Bool-cases (ltb k m)) [
    | inl t ↦ below (ground arith)
    | inr f ↦ let same : m ≡ k = ground arith in subst (λ x. is_blocked x ≡ true) same b
  ]

  blocked_from :
      (k m : ℕ)
      → is_blocked m ≡ true
      → (m + 1 ≤ k → is_blocked k ≡ true)
      → m ≤ k
      → is_blocked k ≡ true
  blocked_from k m b above le = elim (Bool-cases (ltb m k)) [
    | inl t ↦ above (ground arith)
    | inr f ↦ let same : m ≡ k = ground arith in subst (λ x. is_blocked x ≡ true) same b
  ]

  -- What the downward loop finds is the greatest free number of its range.
  pub search_down-greatest :
      (n id : ℕ)
      → search_down is_blocked min n ≡ some id
      → (is_blocked id ≡ false)
        × (min ≤ id)
        × (id < min + n)
        × ((k : ℕ) → id < k → k < min + n → is_blocked k ≡ true)
  unfolding search_down
  search_down-greatest zero id h = cc
  search_down-greatest (suc n) id h = elim (Bool-cases (is_blocked (min + n))) [
    | inl b ↦
        let rest = search_down-greatest n id (rw b at h) in
        (
          rest.0,
          rest.1,
          omega (arith, rest.2),
          λ k lo hi. blocked_up_to k (min + n) b (rest.3 k lo) (omega arith),
        )
    | inr free ↦
        let found : min + n ≡ id = ground arith in
        (
          subst (λ x. is_blocked x ≡ false) found free,
          omega arith,
          omega arith,
          λ k lo hi. ground arith,
        )
  ]

  pub search_down-none :
      (n : ℕ)
      → search_down is_blocked min n ≡ none
      → (k : ℕ) → min ≤ k
      → k < min + n
      → is_blocked k ≡ true
  unfolding search_down
  search_down-none zero h k lo hi = ground arith
  search_down-none (suc n) h k lo hi = elim (Bool-cases (is_blocked (min + n))) [
    | inl b ↦ blocked_up_to k (min + n) b (search_down-none n (rw b at h) k lo) (omega arith)
    | inr free ↦ ground arith
  ]

  pub search_up-least :
      (fuel up id : ℕ)
      → search_up is_blocked fuel up ≡ some id
      → (is_blocked id ≡ false) × (up ≤ id) × ((k : ℕ) → up ≤ k → k < id → is_blocked k ≡ true)
  unfolding search_up
  search_up-least zero up id h = cc
  search_up-least (suc fuel) up id h = elim (Bool-cases (is_blocked up)) [
    | inl b ↦
        let rest = search_up-least fuel (up + 1) id (rw b at h) in
        (rest.0, omega (arith, rest.1), λ k lo hi. blocked_from k up b (λ l. rest.2 k l hi) lo)
    | inr free ↦
        let found : up ≡ id = ground arith in
        (subst (λ x. is_blocked x ≡ false) found free, omega arith, λ k lo hi. ground arith)
  ]

  -- Enough fuel: the loop reaches any free number from its start on.
  pub search_up-reaches :
      (fuel up free : ℕ)
      → is_blocked free ≡ false
      → up ≤ free
      → free < up + fuel
      → (id : ℕ) × (search_up is_blocked fuel up ≡ some id)
  unfolding search_up
  search_up-reaches zero up free f lo hi = ground arith
  search_up-reaches (suc fuel) up free f lo hi =
      let next : is_blocked up ≡ true → up + 1 ≤ free = λ b. elim (Bool-cases (ltb up free)) [
        | inl t ↦ ground arith
        | inr n ↦
            let same : up ≡ free = ground arith in
            let clash : is_blocked free ≡ true = subst (λ x. is_blocked x ≡ true) same b in
            ground arith
      ] in
      elim (Bool-cases (is_blocked up)) [
        | inl b ↦ rw b (search_up-reaches fuel (up + 1) free f (next b) (omega arith))
        | inr n ↦ rw n (up, refl)
      ]
