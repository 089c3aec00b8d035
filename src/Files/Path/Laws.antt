-- ===== src/Files/Path/Laws.antt =====
-- What resolved paths look like, and that resolving them again leaves them alone.
use mathlib.Core.List.{reverse, reverse-reverse}
use proxora.Common.{
  List, [], ◌∷◌, true, false, ◌≡◌, refl, sym, ap, ◌∙◌, arith, codes_eq, nat_eq, Codes, split, all,
  includes, length, leb,
}
use proxora.Files.Path.{
  Resolved, ok, throw, ◌>>=◌, slashed, stays, walk, join, path_of, within, joined, max_path,
  resolve_guest_path,
}
use proxora.Files.Path.Parts.{
  plain_or_slash, is_part, all-reverse, all-split, all-slashed, slashed-plain, includes-plain,
  all-join, split-join, all-is_part, walk-parts, walk-all,
}

-- An absolute path of parts that stand for themselves, the last one first.
unfoldable pub IsPathOf : List Codes → Codes → Type 0
IsPathOf parts path =
    (all is_part parts ≡ true) × (path ≡ path_of parts) × (leb (length path) max_path ≡ true)

unfoldable pub IsNormal : Codes → Type 0
unfolding IsPathOf
IsNormal path = (parts : List Codes) × IsPathOf parts path

pub bind_ok {ℓ κ} :
    {A : Type ℓ} {B : Type κ} (r : Resolved A) (next : A → Resolved B) (b : B)
    → (r >>= next) ≡ ok b
    → (a : A) × (r ≡ ok a) × (next a ≡ ok b)
bind_ok (ok a) next b h = (a, refl, h)
bind_ok (throw e) next b h = cc

pub within_ok :
    (path p : Codes) → within path ≡ ok p → (path ≡ p) × (leb (length path) max_path ≡ true)
unfolding within
within_ok path p h = ground arith

pub resolve_ok :
    (cwd name path : Codes)
    → resolve_guest_path cwd name ≡ ok path
    → (includes (joined cwd name) 0 ≡ false)
      × ((parts : List Codes) × (walk [] (split 47 (slashed (joined cwd name))) ≡ ok parts)
          × (path_of parts ≡ path)
          × (leb (length path) max_path ≡ true))
unfolding resolve_guest_path
resolve_ok cwd name path h =
    let free : includes (joined cwd name) 0 ≡ false = ground arith in
    let bound =
      bind_ok (walk [] (split 47 (slashed (joined cwd name)))) (λ parts. within (path_of parts))
        path (ground arith) in
    let fits = within_ok (path_of bound.0) path bound.2 in
    (free, (bound.0, bound.1, fits.0, rw (sym fits.0) fits.1))

-- A path that is resolved is absolute, has no empty part, no `.`, no `..`, no backslash and no null character in its
-- parts, and has at most 4096 characters.
pub resolve_guest_path-IsNormal :
    (cwd name path : Codes) → resolve_guest_path cwd name ≡ ok path → IsNormal path
unfolding IsNormal IsPathOf
resolve_guest_path-IsNormal cwd name path h =
    let (free, (parts, walked, same, fits)) = resolve_ok cwd name path h in
    let clean = all-split (slashed (joined cwd name)) (all-slashed (joined cwd name) free) in
    (
      parts,
      (
        walk-parts [] (split 47 (slashed (joined cwd name))) parts refl clean walked,
        sym same,
        fits,
      ),
    )

-- the text of a path, and how the loop takes it apart
pub path_of-chars :
    (parts : List Codes) → all is_part parts ≡ true → all plain_or_slash (path_of parts) ≡ true
unfolding path_of
path_of-chars parts h =
    let clean =
      all-join (reverse parts) (all-is_part (reverse parts) (all-reverse is_part parts h)) in
    ground arith

split_first :
    (first : List Codes)
    → all is_part first ≡ true
    → walk [] (split 47 (47 ∷ join 47 first)) ≡ walk [] first
unfolding split walk join stays
split_first [] h = refl
split_first (part ∷ parts) h = rw (split-join part parts (all-is_part (part ∷ parts) h)) refl

pub walk-path_of :
    (parts : List Codes) → all is_part parts ≡ true → walk [] (split 47 (path_of parts)) ≡ ok parts
unfolding path_of
walk-path_of parts h =
    let h' = all-reverse is_part parts h in
    split_first (reverse parts) h'
    ∙ walk-all [] (reverse parts) h'
    ∙ ap (λ ps. ok ps) (reverse-reverse parts)

-- A text that is already the text of a path resolves to it.
pub resolve_joined :
    (cwd name : Codes) (parts : List Codes)
    → all is_part parts ≡ true
    → joined cwd name ≡ path_of parts
    → resolve_guest_path cwd name ≡ within (path_of parts)
unfolding resolve_guest_path
resolve_joined cwd name parts h same =
    let chars = path_of-chars parts h in
    rw same (
      rw (includes-plain (path_of parts) chars)
        (rw (slashed-plain (path_of parts) chars) (rw (walk-path_of parts h) refl)))

pub resolve-IsPathOf :
    (parts : List Codes) (path : Codes) → IsPathOf parts path → resolve_guest_path path [] ≡ ok path
unfolding IsPathOf joined path_of within
resolve-IsPathOf parts path (h, same, fits) =
    let fits' : leb (length (path_of parts)) max_path ≡ true = rw same at fits in
    rw same (resolve_joined (path_of parts) [] parts h refl ∙ rw fits' refl)

-- A path that was resolved resolves to itself.
pub resolve_guest_path-idempotent :
    (cwd name path : Codes)
    → resolve_guest_path cwd name ≡ ok path
    → resolve_guest_path path [] ≡ ok path
unfolding IsNormal
resolve_guest_path-idempotent cwd name path h =
    let normal = resolve_guest_path-IsNormal cwd name path h in
    resolve-IsPathOf normal.0 path normal.1
