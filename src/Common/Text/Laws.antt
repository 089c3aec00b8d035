-- ===== src/Common/Text/Laws.antt =====
-- Decimal notation can be read back, and strings joined by a separator can be taken apart.
use Prim.Native.Nat.{ℕ, zero, suc, ◌+◌, ◌-◌, ◌*◌, ◌/◌, ◌%◌, ◌<◌}
use Prim.Native.Char.{Char, code}
use Prim.Native.String.{String}
use mathlib.Core.Path.{◌≡◌, refl, sym, ◌∙◌, ap, ap₂, subst}
use mathlib.Core.Logic.{◌≢◌, inl, inr}
use native.Mathlib.Omega.{arith}
use text.Mathlib.TextLemmas.{nil-append, cons-append, head-eq_of_cons-eq, tail-eq_of_cons-eq}
use proxora.Common.Tests.{ltb, ltb→lt, Bool-cases}
use proxora.Common.Text.{◌⧺◌, digit, digits, decimal}

value_from : ℕ → String → ℕ
value_from acc String.[] = acc
value_from acc (String.◌∷◌ c s) = value_from (acc * 10 + (code c - b'0')) s

value_from-append :
    (acc : ℕ) (s t : String) → value_from acc (s ⧺ t) ≡ value_from (value_from acc s) t
unfolding value_from
value_from-append acc String.[] t = rw nil-append
value_from-append acc (String.◌∷◌ c s) t =
    rw cons-append (value_from-append (acc * 10 + (code c - b'0')) s t)

value_from-digit : (acc d : ℕ) → d < 10 → value_from acc (digit d) ≡ acc * 10 + d
unfolding value_from digit
value_from-digit acc zero h = omega arith
value_from-digit acc (suc zero) h = omega arith
value_from-digit acc (suc (suc zero)) h = omega arith
value_from-digit acc (suc (suc (suc zero))) h = omega arith
value_from-digit acc (suc (suc (suc (suc zero)))) h = omega arith
value_from-digit acc (suc (suc (suc (suc (suc zero))))) h = omega arith
value_from-digit acc (suc (suc (suc (suc (suc (suc zero)))))) h = omega arith
value_from-digit acc (suc (suc (suc (suc (suc (suc (suc zero))))))) h = omega arith
value_from-digit acc (suc (suc (suc (suc (suc (suc (suc (suc zero)))))))) h = omega arith
value_from-digit acc (suc (suc (suc (suc (suc (suc (suc (suc (suc n))))))))) h = omega arith

value_from-digits : (fuel n : ℕ) → n < fuel → value_from 0 (digits fuel n) ≡ n
unfolding digits
value_from-digits zero n h = absurd (omega arith)
value_from-digits (suc fuel) n h = elim (Bool-cases (ltb n 10)) [
  | inl small ↦ rw small (omega (arith, value_from-digit 0 n (ltb→lt n 10 small)))
  | inr big ↦
      rw
        (
          big,
          value_from-append 0 (digits fuel (n / 10)) (digit (n % 10)),
          value_from-digits fuel (n / 10) (ground arith),
        )
        (omega (arith, value_from-digit (n / 10) (n % 10) (omega arith)))
]

-- The decimal notation of a number determines it.
pub decimal-injective : (m n : ℕ) → decimal m ≡ decimal n → m ≡ n
unfolding decimal
decimal-injective m n e =
    sym (value_from-digits (suc m) m (omega arith))
    ∙ ap (value_from 0) e
    ∙ value_from-digits (suc n) n (omega arith)

-- No character of the string is `c`.
abbrev pub Free : ℕ → String → Type 0
Free c String.[] = Unit
Free c (String.◌∷◌ d s) = (code d ≢ c) × Free c s

pub Free-append : (c : ℕ) (s t : String) → Free c s → Free c t → Free c (s ⧺ t)
Free-append c String.[] t hs ht = rw nil-append ht
Free-append c (String.◌∷◌ d s) t hs ht = rw cons-append (hs.0, Free-append c s t hs.1 ht)

not-Free-append : (c : Char) (s t : String) → ¬ Free (code c) (s ⧺ String.◌∷◌ c t)
not-Free-append c String.[] t h =
    let g : Free (code c) (String.◌∷◌ c t) = rw nil-append at h in g.0 refl
not-Free-append c (String.◌∷◌ d s) t h =
    let g : Free (code c) (String.◌∷◌ d (s ⧺ String.◌∷◌ c t)) = rw cons-append at h in
    not-Free-append c s t g.1

split_at :
    (c : Char) (s s' t t' : String)
    → Free (code c) t
    → Free (code c) t'
    → s ⧺ String.◌∷◌ c t ≡ s' ⧺ String.◌∷◌ c t'
    → (s ≡ s') × (t ≡ t')
split_at c String.[] String.[] t t' h h' e =
    (refl, tail-eq_of_cons-eq (sym (nil-append _) ∙ e ∙ nil-append _))
split_at c String.[] (String.◌∷◌ d s') t t' h h' e =
    let same = tail-eq_of_cons-eq (sym (nil-append _) ∙ e ∙ cons-append d s' _) in
    absurd (not-Free-append c s' t' (subst (Free (code c)) same h))
split_at c (String.◌∷◌ d s) String.[] t t' h h' e =
    let same = tail-eq_of_cons-eq (sym (nil-append _) ∙ sym e ∙ cons-append d s _) in
    absurd (not-Free-append c s t (subst (Free (code c)) same h'))
split_at c (String.◌∷◌ d s) (String.◌∷◌ d' s') t t' h h' e =
    let f = sym (cons-append d s _) ∙ e ∙ cons-append d' s' _ in
    let (same, rest) = split_at c s s' t t' h h' (tail-eq_of_cons-eq f) in
    (ap₂ String.◌∷◌ (head-eq_of_cons-eq f) same, rest)

abbrev colon_char : Char
colon_char = ":"

colon-append : (t : String) → ":" ⧺ t ≡ String.◌∷◌ colon_char t
colon-append t = cons-append colon_char "" t ∙ ap (String.◌∷◌ colon_char) (nil-append t)

-- The last colon of a string splits it in one way.
pub split_last :
    (s s' t t' : String)
    → Free b':' t
    → Free b':' t'
    → s ⧺ ":" ⧺ t ≡ s' ⧺ ":" ⧺ t'
    → (s ≡ s') × (t ≡ t')
split_last s s' t t' h h' e =
    split_at colon_char s s' t t' h h'
      (ap (◌⧺◌ s) (sym (colon-append t)) ∙ e ∙ ap (◌⧺◌ s') (colon-append t'))

digit-Free : (d : ℕ) → Free b':' (digit d)
unfolding digit
digit-Free zero = omega arith
digit-Free (suc zero) = omega arith
digit-Free (suc (suc zero)) = omega arith
digit-Free (suc (suc (suc zero))) = omega arith
digit-Free (suc (suc (suc (suc zero)))) = omega arith
digit-Free (suc (suc (suc (suc (suc zero))))) = omega arith
digit-Free (suc (suc (suc (suc (suc (suc zero)))))) = omega arith
digit-Free (suc (suc (suc (suc (suc (suc (suc zero))))))) = omega arith
digit-Free (suc (suc (suc (suc (suc (suc (suc (suc zero)))))))) = omega arith
digit-Free (suc (suc (suc (suc (suc (suc (suc (suc (suc d))))))))) = omega arith

digits-Free : (fuel n : ℕ) → Free b':' (digits fuel n)
unfolding digits
digits-Free zero n = tt
digits-Free (suc fuel) n = elim (Bool-cases (ltb n 10)) [
  | inl small ↦ rw small (digit-Free n)
  | inr big ↦ rw big (Free-append b':' _ _ (digits-Free fuel (n / 10)) (digit-Free (n % 10)))
]

-- A decimal notation has no colon.
pub decimal-Free : (n : ℕ) → Free b':' (decimal n)
unfolding decimal
decimal-Free n = digits-Free (suc n) n
