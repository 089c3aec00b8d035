-- ===== src/Files/Path/Ends.antt =====
-- The directory and the last part of a path, and a name put behind a directory.
use mathlib.Core.List.{reverse, reverse-cons, append_assoc}
use proxora.Common.{
  ℕ, List, [], ◌∷◌, ◌++◌, true, false, none, some, ◌≡◌, refl, sym, ap, ◌∙◌, arith, codes_eq, nat_eq,
  Codes, all, includes, includes-append, length, drop, take-append, starts_with, ◌==◌,
}
use proxora.Files.Path.{
  stays, join, path_of, joined, root, or_root, without_slashes, last_index_of, up_to, parent_of,
  behind, name_of, bad_name,
}
use proxora.Files.Path.Parts.{plain, is_part}

last_index_of-none : (x : Codes) → all plain x ≡ true → last_index_of 47 x ≡ none
unfolding last_index_of
last_index_of-none [] h = refl
last_index_of-none (c ∷ x) h = ground (arith, last_index_of-none x)

last_index_of-append :
    (s x : Codes) → all plain x ≡ true → last_index_of 47 (s ++ 47 ∷ x) ≡ some (length s)
unfolding last_index_of
last_index_of-append [] x h = rw (last_index_of-none x h) refl
last_index_of-append (c ∷ s) x h = rw (last_index_of-append s x h) refl

join-snoc :
    (part : Codes) (parts : List Codes) (x : Codes)
    → join 47 (part ∷ parts ++ x ∷ []) ≡ join 47 (part ∷ parts) ++ 47 ∷ x
unfolding join
join-snoc part [] x = refl
join-snoc part (next ∷ parts) x =
    ap (λ s. part ++ 47 ∷ s) (join-snoc next parts x)
    ∙ sym (append_assoc part (47 ∷ join 47 (next ∷ parts)) (47 ∷ x))

-- what stands in front of the last part
front : List Codes → Codes
front [] = []
front (part ∷ parts) = 47 ∷ join 47 (part ∷ parts)

or_root-front : (parts : List Codes) → or_root (front parts) ≡ 47 ∷ join 47 parts
unfolding front join
or_root-front [] = refl
or_root-front (part ∷ parts) = refl

front-snoc :
    (parts : List Codes) (x : Codes) → 47 ∷ join 47 (parts ++ x ∷ []) ≡ front parts ++ 47 ∷ x
unfolding front join
front-snoc [] x = refl
front-snoc (part ∷ parts) x = ap (λ s. 47 ∷ s) (join-snoc part parts x)

path_of-cons : (x : Codes) (rest : List Codes) → path_of (x ∷ rest) ≡ front (reverse rest) ++ 47 ∷ x
unfolding path_of
path_of-cons x rest = rw (reverse-cons x rest) (front-snoc (reverse rest) x)

not_root : (s x : Codes) → stays x ≡ false → ((s ++ 47 ∷ x) == root) ≡ false
unfolding stays
not_root s [] h = cc
not_root [] (d ∷ x) h = refl
not_root (c ∷ []) (d ∷ x) h = ground arith
not_root (c ∷ e ∷ s) (d ∷ x) h = ground arith

up_to_front : (s x : Codes) → up_to (s ++ 47 ∷ x) (some (length s)) ≡ or_root s
up_to_front [] x = refl
up_to_front (c ∷ s) x = take-append (c ∷ s) (47 ∷ x)

behind_front : (s x : Codes) → behind (s ++ 47 ∷ x) (some (length s)) ≡ x
unfolding drop
behind_front [] x = refl
behind_front (c ∷ s) x = behind_front s x

parent_of_at :
    (path : Codes) (n : ℕ)
    → (path == root) ≡ false
    → last_index_of 47 path ≡ some n
    → parent_of path ≡ some (up_to path (some n))
unfolding parent_of
parent_of_at path n other at = rw (other, at) refl

name_of_at :
    (path : Codes) (n : ℕ)
    → (path == root) ≡ false
    → last_index_of 47 path ≡ some n
    → name_of path ≡ behind path (some n)
unfolding name_of
name_of_at path n other at = rw (other, at) refl

module _ (x : Codes) (rest : List Codes) (h : is_part x ≡ true) where
  is_plain : all plain x ≡ true
  is_plain = ground arith

  moves : stays x ≡ false
  unfolding stays
  moves = ground arith

  pub parent_of-path_of : parent_of (path_of (x ∷ rest)) ≡ some (path_of rest)
  unfolding path_of
  parent_of-path_of =
      let s = front (reverse rest) in
      ap parent_of (path_of-cons x rest)
      ∙ parent_of_at (s ++ 47 ∷ x) (length s) (not_root s x moves)
          (last_index_of-append s x is_plain)
      ∙ ap (λ path. some path) (up_to_front s x ∙ or_root-front (reverse rest))

  pub name_of-path_of : name_of (path_of (x ∷ rest)) ≡ x
  name_of-path_of =
      let s = front (reverse rest) in
      ap name_of (path_of-cons x rest)
      ∙ name_of_at (s ++ 47 ∷ x) (length s) (not_root s x moves) (last_index_of-append s x is_plain)
      ∙ behind_front s x

-- trailing slashes
without_slashes-append :
    (s : Codes) (c : ℕ) (t : Codes)
    → without_slashes (c ∷ t) ≡ c ∷ t
    → without_slashes (s ++ c ∷ t) ≡ s ++ c ∷ t
unfolding without_slashes
without_slashes-append [] c t h = h
without_slashes-append (d ∷ []) c t h = rw h refl
without_slashes-append (d ∷ e ∷ s) c t h = rw (without_slashes-append (e ∷ s) c t h) refl

without_slashes-plain :
    (c : ℕ) (t : Codes) → all plain (c ∷ t) ≡ true → without_slashes (c ∷ t) ≡ c ∷ t
unfolding without_slashes
without_slashes-plain c [] h = ground arith
without_slashes-plain c (d ∷ t) h = rw (without_slashes-plain d t (ground arith)) refl

without_slashes-last :
    (s x : Codes)
    → all plain x ≡ true
    → stays x ≡ false
    → without_slashes (s ++ 47 ∷ x) ≡ s ++ 47 ∷ x
unfolding stays
without_slashes-last s [] h moves = cc
without_slashes-last s (c ∷ x) h moves =
    without_slashes-append s 47 (c ∷ x)
      (without_slashes-append (47 ∷ []) c x (without_slashes-plain c x h))

front_path :
    (first : List Codes) (x : Codes) → front (first ++ x ∷ []) ≡ 47 ∷ join 47 (first ++ x ∷ [])
unfolding front
front_path [] x = refl
front_path (part ∷ first) x = refl

front-reverse : (y : Codes) (rest : List Codes) → front (reverse (y ∷ rest)) ≡ path_of (y ∷ rest)
unfolding path_of
front-reverse y rest = rw (reverse-cons y rest) (front_path (reverse rest) y)

without_slashes-path_of :
    (y : Codes) (rest : List Codes)
    → is_part y ≡ true
    → without_slashes (path_of (y ∷ rest)) ≡ path_of (y ∷ rest)
unfolding stays
without_slashes-path_of y rest h =
    rw (path_of-cons y rest)
      (without_slashes-last (front (reverse rest)) y (ground arith) (ground arith))

pub in_parent : (parts : List Codes) → Codes → Codes
in_parent parts name = without_slashes (or_root (path_of parts)) ++ 47 ∷ name

pub in_parent-path_of :
    (parts : List Codes) (name : Codes)
    → all is_part parts ≡ true
    → in_parent parts name ≡ path_of (name ∷ parts)
unfolding in_parent path_of join without_slashes
in_parent-path_of [] name h = refl
in_parent-path_of (y ∷ rest) name h =
    ap (λ s. s ++ 47 ∷ name) (without_slashes-path_of y rest (ground arith))
    ∙ sym (path_of-cons name (y ∷ rest) ∙ ap (λ s. s ++ 47 ∷ name) (front-reverse y rest))

pub joined-in_parent :
    (parts : List Codes) (name : Codes)
    → bad_name name ≡ false
    → joined (path_of parts) name ≡ in_parent parts name
unfolding joined in_parent bad_name includes starts_with path_of
joined-in_parent parts [] good = cc
joined-in_parent parts (c ∷ name) good = ground arith

plain_name :
    (name : Codes)
    → includes name 47 ≡ false
    → includes name 92 ≡ false
    → includes name 0 ≡ false
    → all plain name ≡ true
unfolding includes
plain_name [] a b c = refl
plain_name (d ∷ name) a b c = ground (arith, plain_name name)

pub is_part_name :
    (name : Codes) → bad_name name ≡ false → includes name 0 ≡ false → is_part name ≡ true
unfolding bad_name stays
is_part_name name good free = ground (arith, plain_name name)

pub in_parent_free :
    (parts : List Codes) (name : Codes)
    → includes (in_parent parts name) 0 ≡ false
    → includes name 0 ≡ false
unfolding in_parent includes
in_parent_free parts name free =
    ground (arith, includes-append (without_slashes (or_root (path_of parts))) (47 ∷ name) 0)
