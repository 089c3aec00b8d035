-- ===== src/Common/Trim.antt =====
-- Trimming a text again changes nothing.
use mathlib.Core.List.{[], ◌∷◌}
use mathlib.Core.Path.{◌≡◌, refl, ap, ◌∙◌}
use mathlib.Core.Bool.{Bool, true, false}
use Prim.Native.Nat.{ℕ, suc, ◌≤◌}
use native.Mathlib.Omega.{arith}
use proxora.Common.Tests.{if◌then◌else◌}
use proxora.Common.Lists.{length}
use proxora.Common.Words.{Codes, trim, trim_start, trim_end, keep_before, is_space}

starts_dense : Codes → Bool
starts_dense [] = true
starts_dense (c ∷ s) = if is_space c then false else true

starts_dense-trim_start : (s : Codes) → starts_dense (trim_start s) ≡ true
unfolding starts_dense trim_start
starts_dense-trim_start [] = refl
starts_dense-trim_start (c ∷ s) = ground (arith, starts_dense-trim_start s)

starts_dense-trim_end : (s : Codes) → starts_dense s ≡ true → starts_dense (trim_end s) ≡ true
unfolding starts_dense trim_end
starts_dense-trim_end [] h = refl
starts_dense-trim_end (c ∷ s) h = ground arith

trim_start_dense : (s : Codes) → starts_dense s ≡ true → trim_start s ≡ s
unfolding starts_dense trim_start
trim_start_dense [] h = refl
trim_start_dense (c ∷ s) h = ground arith

trim_end-keep_before :
    (c : ℕ) (s : Codes) → trim_end s ≡ s → trim_end (keep_before c s) ≡ keep_before c s
unfolding trim_end
trim_end-keep_before c [] h = ground arith
trim_end-keep_before c (d ∷ s) h = ap (keep_before c) h

trim_end-idempotent : (s : Codes) → trim_end (trim_end s) ≡ trim_end s
unfolding trim_end
trim_end-idempotent [] = refl
trim_end-idempotent (c ∷ s) = trim_end-keep_before c (trim_end s) (trim_end-idempotent s)

pub trim-idempotent : (s : Codes) → trim (trim s) ≡ trim s
unfolding trim
trim-idempotent s =
    let dense = starts_dense-trim_end (trim_start s) (starts_dense-trim_start s) in
    ap trim_end (trim_start_dense (trim_end (trim_start s)) dense)
    ∙ trim_end-idempotent (trim_start s)

length-trim_start : (s : Codes) → length (trim_start s) ≤ length s
unfolding trim_start
length-trim_start [] = omega arith
length-trim_start (c ∷ s) = ground (arith, length-trim_start s)

length-keep_before : (c : ℕ) (s : Codes) → length (keep_before c s) ≤ suc (length s)
length-keep_before c [] = ground arith
length-keep_before c (d ∷ s) = omega arith

length-trim_end : (s : Codes) → length (trim_end s) ≤ length s
unfolding trim_end
length-trim_end [] = omega arith
length-trim_end (c ∷ s) = ground (arith, length-trim_end s, length-keep_before c (trim_end s))

pub length-trim : (s : Codes) → length (trim s) ≤ length s
unfolding trim
length-trim s = ground (arith, length-trim_start s, length-trim_end (trim_start s))
