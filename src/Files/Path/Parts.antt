-- ===== src/Files/Path/Parts.antt =====
-- Texts that a path is split into and joined from.
use mathlib.Core.List.{reverse, reverse_aux}
use proxora.Common.{
  ℕ, List, [], ◌∷◌, ◌++◌, Bool, true, false, not, ◌≡◌, refl, ap, ◌∙◌, arith, codes_eq, nat_eq,
  Codes, codes, split, grow, all, includes, ◌&&◌, ◌||◌, ◌==◌,
}
use proxora.Files.Path.{slashed, stays, walk, join, ok}

-- A character that a part of a path may have.
abbrev pub plain : ℕ → Bool
plain c = not (c == 47) && not (c == 92) && not (c == 0)

abbrev pub plain_or_slash : ℕ → Bool
plain_or_slash c = plain c || c == 47

-- A part that stands for itself: not empty, not `.` and not `..`.
abbrev pub is_part : Codes → Bool
is_part part =
    all plain part && not (part == []) && not (part == codes ".") && not (part == codes "..")

module _ {ℓ} {A : Type ℓ} (p : A → Bool) where
  pub all-append : (xs ys : List A) → all p (xs ++ ys) ≡ (all p xs && all p ys)
  all-append [] ys = refl
  all-append (x ∷ xs) ys = ground (arith, all-append xs ys)

  all-reverse_aux : (xs ys : List A) → all p (reverse_aux xs ys) ≡ (all p xs && all p ys)
  all-reverse_aux [] ys = refl
  all-reverse_aux (x ∷ xs) ys = ground (arith, all-reverse_aux xs (x ∷ ys))

  pub all-reverse : (xs : List A) → all p xs ≡ true → all p (reverse xs) ≡ true
  all-reverse xs h = ground (arith, all-reverse_aux xs [])

all-grow :
    (c : ℕ) (parts : List Codes)
    → plain c ≡ true
    → all (all plain) parts ≡ true
    → all (all plain) (grow c parts) ≡ true
all-grow c [] h hs = ground arith
all-grow c (part ∷ parts) h hs = ground arith

pub all-split : (s : Codes) → all plain_or_slash s ≡ true → all (all plain) (split 47 s) ≡ true
unfolding split
all-split [] h = refl
all-split (c ∷ s) h = ground (arith, all-split s, all-grow c (split 47 s))

pub all-slashed : (s : Codes) → includes s 0 ≡ false → all plain_or_slash (slashed s) ≡ true
unfolding slashed includes
all-slashed [] h = refl
all-slashed (c ∷ s) h = ground (arith, all-slashed s)

pub slashed-plain : (s : Codes) → all plain_or_slash s ≡ true → slashed s ≡ s
unfolding slashed
slashed-plain [] h = refl
slashed-plain (c ∷ s) h = ground (arith, slashed-plain s)

pub includes-plain : (s : Codes) → all plain_or_slash s ≡ true → includes s 0 ≡ false
unfolding includes
includes-plain [] h = refl
includes-plain (c ∷ s) h = ground (arith, includes-plain s)

pub all-plain : (s : Codes) → all plain s ≡ true → all plain_or_slash s ≡ true
all-plain [] h = refl
all-plain (c ∷ s) h = ground (arith, all-plain s)

pub all-join :
    (parts : List Codes) → all (all plain) parts ≡ true → all plain_or_slash (join 47 parts) ≡ true
unfolding join
all-join [] h = refl
all-join (part ∷ []) h = all-plain part (ground arith)
all-join (part ∷ next ∷ parts) h = ground (
  arith,
  all-plain part,
  all-join (next ∷ parts),
  all-append plain_or_slash part (47 ∷ join 47 (next ∷ parts)),
)

split_one : (part : Codes) → all plain part ≡ true → split 47 part ≡ part ∷ []
unfolding split
split_one [] h = refl
split_one (c ∷ part) h = ground (arith, split_one part)

split-append :
    (part s : Codes) → all plain part ≡ true → split 47 (part ++ 47 ∷ s) ≡ part ∷ split 47 s
unfolding split
split-append [] s h = refl
split-append (c ∷ part) s h = ground (arith, split-append part s)

pub split-join :
    (part : Codes) (parts : List Codes)
    → all (all plain) (part ∷ parts) ≡ true
    → split 47 (join 47 (part ∷ parts)) ≡ part ∷ parts
unfolding join
split-join part [] h = split_one part (ground arith)
split-join part (next ∷ parts) h =
    split-append part (join 47 (next ∷ parts)) (ground arith)
    ∙ ap (λ ps. part ∷ ps) (split-join next parts (ground arith))

pub all-is_part : (parts : List Codes) → all is_part parts ≡ true → all (all plain) parts ≡ true
all-is_part [] h = refl
all-is_part (part ∷ parts) h = ground (arith, all-is_part parts)

-- The loop keeps parts that stand for themselves.
pub walk-parts :
    (parts segments rest : List Codes)
    → all is_part parts ≡ true
    → all (all plain) segments ≡ true
    → walk parts segments ≡ ok rest
    → all is_part rest ≡ true
unfolding walk stays
walk-parts parts [] rest h hs w = ground arith
walk-parts [] (segment ∷ segments) rest h hs w =
    ground (arith, walk-parts [] segments rest, walk-parts (segment ∷ []) segments rest)
walk-parts (part ∷ parts) (segment ∷ segments) rest h hs w = ground (
  arith,
  walk-parts (part ∷ parts) segments rest,
  walk-parts parts segments rest,
  walk-parts (segment ∷ part ∷ parts) segments rest,
)

-- Parts that stand for themselves are pushed one after the other.
pub walk-all :
    (parts segments : List Codes)
    → all is_part segments ≡ true
    → walk parts segments ≡ ok (reverse_aux segments parts)
unfolding walk stays
walk-all parts [] h = refl
walk-all [] (segment ∷ segments) h = ground (arith, walk-all (segment ∷ []) segments)
walk-all (part ∷ parts) (segment ∷ segments) h =
    ground (arith, walk-all (segment ∷ part ∷ parts) segments)
