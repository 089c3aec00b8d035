-- ===== src/SignIn/Recovery.antt =====
-- lib/recovery-codes.ts: the codes that stand in for an authenticator, each of them once.
pub mod Once
use proxora.Common.{
  ℕ, zero, suc, ◌+◌, ◌≤◌, String, List, [], ◌∷◌, Bool, true, false, not, Option, none, some, ◌≡◌,
  refl, ap, ◌∙◌, arith, map, filter, all, includes, codes_eq, nat_eq, string_eq, Codes, upper,
  length, leb, Bool-cases, inl, inr, ◌&&◌, ◌||◌, ◌==◌, if◌then◌else◌,
}

-- `[A-Z0-9]`
unfoldable pub is_code_letter : ℕ → Bool
is_code_letter c = leb 65 c && leb c 90 || leb 48 c && leb c 57

unfoldable pub normalize_recovery_code : Codes → Codes
normalize_recovery_code value = filter is_code_letter (upper value)

unfoldable pub looks_like_recovery_code : Codes → Bool
looks_like_recovery_code value =
    let normalized = normalize_recovery_code value in
    length normalized == 8 && all is_code_letter normalized

-- The loop: the first index from `i` on with the hash.
unfoldable pub index_of : (want : String) → (i : ℕ) → List String → Option ℕ
index_of want i [] = none
index_of want i (have ∷ hashes) =
    let rest = index_of want (suc i) hashes in if have == want then some i else rest

-- `hashes.filter((_, i) => i !== index)`, from an index on
unfoldable pub without_index : (index i : ℕ) → List String → List String
without_index index i [] = []
without_index index i (h ∷ hashes) =
    let rest = without_index index (suc i) hashes in if i == index then rest else h ∷ rest

abbrev pub consumed : List String → Option ℕ → Option (List String)
consumed hashes none = none
consumed hashes (some index) = some (without_index index 0 hashes)

-- `sha256` of a normalized code
module _ (sha256 : Codes → String) where
  unfoldable pub hash_recovery_code : Codes → String
  hash_recovery_code code = sha256 (normalize_recovery_code code)

  unfoldable pub hash_recovery_codes : List Codes → List String
  hash_recovery_codes texts = map hash_recovery_code texts

  -- `null` is `none`.
  unfoldable pub consume_recovery_code : List String → Codes → Option (List String)
  consume_recovery_code hashes code = consumed hashes (index_of (hash_recovery_code code) 0 hashes)
