-- ===== src/SignIn/Recovery/Once.antt =====
-- A recovery code is good for one login.
use proxora.Common.{
  ℕ, suc, ◌≤◌, ◌<◌, String, List, [], ◌∷◌, Bool, true, false, not, Option, none, some, ◌≡◌, refl,
  sym, ap, ◌∙◌, subst, arith, includes, nat_eq, string_eq, Codes, length, Bool-cases, inl, inr,
  ◌&&◌, ◌||◌, ◌==◌, if◌then◌else◌,
}
use text.Mathlib.TextEquality.{eq_iff}
use proxora.SignIn.Recovery.{
  index_of, without_index, consumed, hash_recovery_code, consume_recovery_code,
}

abbrev put : String → Option (List String) → Option (List String)
put h none = none
put h (some hashes) = some (h ∷ hashes)

-- The list without the first text that is the given one.
remove_first : String → List String → Option (List String)
remove_first want [] = none
remove_first want (h ∷ hashes) =
    let rest = remove_first want hashes in if h == want then some hashes else put h rest

abbrev cut : ℕ → List String → Option ℕ → Option (List String)
cut i hashes none = none
cut i hashes (some index) = some (without_index index i hashes)

without_index_low :
    (index i : ℕ) (hashes : List String) → index < i → without_index index i hashes ≡ hashes
unfolding without_index
without_index_low index i [] low = refl
without_index_low index i (h ∷ hashes) low = ground (arith, without_index_low index (suc i) hashes)

index_of-bound :
    (want : String) (i : ℕ) (hashes : List String) (k : ℕ) → index_of want i hashes ≡ some k → i ≤ k
unfolding index_of
index_of-bound want i [] k h = cc
index_of-bound want i (have ∷ hashes) k h = ground (arith, index_of-bound want (suc i) hashes k)

cut_later :
    (h : String) (i : ℕ) (hashes : List String) (o : Option ℕ)
    → ((k : ℕ) → o ≡ some k → suc i ≤ k)
    → cut i (h ∷ hashes) o ≡ put h (cut (suc i) hashes o)
unfolding without_index
cut_later h i hashes none bound = refl
cut_later h i hashes (some k) bound = ground (arith, bound k refl)

cut-index_of :
    (want : String) (i : ℕ) (hashes : List String)
    → cut i hashes (index_of want i hashes) ≡ remove_first want hashes
unfolding index_of remove_first without_index
cut-index_of want i [] = refl
cut-index_of want i (h ∷ hashes) = elim (Bool-cases (h == want)) [
  | inl same ↦ ground (arith, without_index_low i (suc i) hashes)
  | inr other ↦ ground (
    arith,
    cut_later h i hashes (index_of want (suc i) hashes) (index_of-bound want (suc i) hashes),
    cut-index_of want (suc i) hashes,
  )
]

cut_start : (hashes : List String) (o : Option ℕ) → consumed hashes o ≡ cut 0 hashes o
cut_start hashes none = refl
cut_start hashes (some k) = refl

unfoldable pub distinct : List String → Bool
distinct [] = true
distinct (h ∷ hashes) = not (includes hashes h) && distinct hashes

remove_first_absent :
    (want : String) (hashes : List String)
    → includes hashes want ≡ false
    → remove_first want hashes ≡ none
unfolding remove_first includes
remove_first_absent want [] h = refl
remove_first_absent want (x ∷ hashes) h = ground (arith, remove_first_absent want hashes)

-- what is known of the list that is left
unfoldable pub IsOneLess : String → (hashes rest : List String) → Type 0
IsOneLess want hashes rest =
    (includes hashes want ≡ true)
    × (includes rest want ≡ false)
    × (length hashes ≡ suc (length rest))
    × ((other : String) → (want == other) ≡ false → includes rest other ≡ includes hashes other)

put-some :
    (h : String) (o : Option (List String)) (rest : List String)
    → put h o ≡ some rest
    → (less : List String) × (o ≡ some less) × (h ∷ less ≡ rest)
put-some h none rest e = cc
put-some h (some less) rest e = (less, refl, ground arith)

remove_first-IsOneLess :
    (want : String) (hashes rest : List String)
    → distinct hashes ≡ true
    → remove_first want hashes ≡ some rest
    → IsOneLess want hashes rest
unfolding remove_first distinct IsOneLess includes
remove_first-IsOneLess want [] rest d h = cc
remove_first-IsOneLess want (x ∷ hashes) rest d h = elim (Bool-cases (x == want)) [
  | inl same ↦
      let at : x ≡ want = (eq_iff x want).0 same in
      let left : hashes ≡ rest = ground arith in
      let fresh : includes hashes x ≡ false = ground arith in
      (
        rw same refl,
        subst (λ hs. includes hs want ≡ false) left
            (subst (λ y. includes hashes y ≡ false) at fresh),
        ap (λ hs. suc (length hs)) left,
        λ other ne.
            let off : (x == other) ≡ false = ap (λ y. y == other) at ∙ ne in
            ap (λ hs. includes hs other) (sym left)
            ∙ sym (ap (λ b. b || includes hashes other) off),
      )
  | inr other ↦
      let (less, removed, text) = put-some x (remove_first want hashes) rest (rw other at h) in
      let (there, gone, count, others) =
        remove_first-IsOneLess want hashes less (ground arith) removed in
      (
        ground arith,
        subst (λ hs. includes hs want ≡ false) text (ground arith),
        ap (λ n. suc n) (count ∙ ap length text),
        λ other ne.
            ap (λ hs. includes hs other) (sym text) ∙ ap (λ b. x == other || b) (others other ne),
      )
]

module _ (sha256 : Codes → String) where
  -- The loop and the filter of the code take the first of the hashes that is the one of the given code.
  consume-remove_first :
      (hashes : List String) (code : Codes)
      → consume_recovery_code sha256 hashes code
        ≡ remove_first (hash_recovery_code sha256 code) hashes
  unfolding consume_recovery_code
  consume-remove_first hashes code =
      let want = hash_recovery_code sha256 code in
      cut_start hashes (index_of want 0 hashes) ∙ cut-index_of want 0 hashes

  -- Of hashes that are all different, a code that is accepted uses up its own: the hash was there and is gone, one
  -- hash less is left, every other hash is still there, and the same code is not accepted again.
  pub consume_recovery_code-once :
      (hashes rest : List String) (code : Codes)
      → distinct hashes ≡ true
      → consume_recovery_code sha256 hashes code ≡ some rest
      → IsOneLess (hash_recovery_code sha256 code) hashes rest
        × (consume_recovery_code sha256 rest code ≡ none)
  unfolding IsOneLess
  consume_recovery_code-once hashes rest code d h =
      let want = hash_recovery_code sha256 code in
      let less =
        remove_first-IsOneLess want hashes rest d (sym (consume-remove_first hashes code) ∙ h) in
      (less, consume-remove_first rest code ∙ remove_first_absent want rest less.1)
