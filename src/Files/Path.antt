-- ===== src/Files/Path.antt =====
-- lib/guest-files.ts, resolveGuestPath to guestFileName, guestRenameDest and guestPathCrumbs.
-- A text is its list of UTF-16 code units: 0 is `\0`, 46 is `.`, 47 is `/` and 92 is the backslash.
pub mod Parts
pub mod Laws
pub mod Ends
pub mod Rename
use mathlib.Core.List.{reverse}
use proxora.Common.{
  ℕ, zero, suc, ◌+◌, List, [], ◌∷◌, ◌++◌, Bool, true, false, not, Option, none, some, map, codes_eq,
  nat_eq, Codes, codes, starts_with, split, trim, length, take, drop, leb, includes, ◌||◌, ◌==◌,
  if◌then◌else◌,
}

pub data PathError : Type 0 where
  invalid_path : PathError
  invalid_name : PathError
  too_long : PathError

pub data Resolved {ℓ} (A : Type ℓ) : Type ℓ where
  ok : A → Resolved A
  throw : PathError → Resolved A

-- A step that runs if nothing was thrown before it.
infixl 5 ◌>>=◌
abbrev pub ◌>>=◌ {ℓ κ} : {A : Type ℓ} {B : Type κ} → Resolved A → (A → Resolved B) → Resolved B
r >>= next = elim r [ ok value ↦ next value | throw error ↦ throw error ]

abbrev pub max_path : ℕ
max_path = 4096

abbrev pub root : Codes
root = codes "/"

-- `cwd || "/"`
abbrev pub or_root : Codes → Codes
or_root [] = root
or_root (c ∷ s) = c ∷ s

-- A character in front of what is left of the rest: a slash goes if nothing is left.
abbrev pub slash_before : ℕ → Codes → Codes
slash_before c [] = if c == 47 then [] else c ∷ []
slash_before c (d ∷ s) = c ∷ d ∷ s

-- `.replace(/\/+$/, "")`
unfoldable pub without_slashes : Codes → Codes
without_slashes [] = []
without_slashes (c ∷ s) = slash_before c (without_slashes s)

-- A name that is not given is the empty text, which the code treats alike.
unfoldable pub joined : (cwd name : Codes) → Codes
joined cwd [] = or_root cwd
joined cwd (c ∷ name) =
    if starts_with root (c ∷ name) then c ∷ name else without_slashes (or_root cwd) ++ 47 ∷ c ∷ name

-- `.replace(/\\/g, "/")`
unfoldable pub slashed : Codes → Codes
slashed s = map (λ c. if c == 92 then 47 else c) s

-- `!seg || seg === "."`
unfoldable pub stays : Codes → Bool
stays segment = segment == [] || segment == codes "."

-- The loop over the segments. `parts` has the last part first.
unfoldable pub walk : (parts segments : List Codes) → Resolved (List Codes)
walk parts [] = ok parts
walk [] (segment ∷ segments) =
    let kept = walk [] segments in
    let pushed = walk (segment ∷ []) segments in
    if stays segment then kept else if segment == codes ".." then throw invalid_path else pushed
walk (part ∷ parts) (segment ∷ segments) =
    let kept = walk (part ∷ parts) segments in
    let popped = walk parts segments in
    let pushed = walk (segment ∷ part ∷ parts) segments in
    if stays segment then kept else if segment == codes ".." then popped else pushed

-- `parts.join(separator)`
unfoldable pub join : (separator : ℕ) → List Codes → Codes
join separator [] = []
join separator (part ∷ []) = part
join separator (part ∷ next ∷ parts) = part ++ separator ∷ join separator (next ∷ parts)

-- `/${parts.join("/")}`
unfoldable pub path_of : List Codes → Codes
path_of parts = 47 ∷ join 47 (reverse parts)

unfoldable pub within : Codes → Resolved Codes
within path = if leb (length path) max_path then ok path else throw too_long

unfoldable pub resolve_guest_path : (cwd name : Codes) → Resolved Codes
resolve_guest_path cwd name =
    let text = joined cwd name in
    if includes text 0
    then throw invalid_path
    else walk [] (split 47 (slashed text)) >>= λ parts. within (path_of parts)

-- `s.lastIndexOf(separator)` for one character; -1 is `none`.
unfoldable pub last_index_of : (separator : ℕ) → Codes → Option ℕ
last_index_of separator [] = none
last_index_of separator (c ∷ s) =
    let rest = last_index_of separator s in
    elim rest [ some n ↦ some (suc n) | none ↦ if c == separator then some 0 else none ]

-- `idx <= 0 ? "/" : resolved.slice(0, idx)`
abbrev pub up_to : Codes → Option ℕ → Codes
up_to path none = root
up_to path (some zero) = root
up_to path (some (suc n)) = take (suc n) path

unfoldable pub parent_of : Codes → Option Codes
parent_of path = if path == root then none else some (up_to path (last_index_of 47 path))

-- `null` is `none`.
unfoldable pub guest_path_parent : Codes → Resolved (Option Codes)
guest_path_parent path = resolve_guest_path path [] >>= λ resolved. ok (parent_of resolved)

-- `resolved.slice(resolved.lastIndexOf("/") + 1)`
abbrev pub behind : Codes → Option ℕ → Codes
behind path none = path
behind path (some n) = drop (suc n) path

unfoldable pub name_of : Codes → Codes
name_of path = if path == root then root else behind path (last_index_of 47 path)

unfoldable pub guest_file_name : Codes → Resolved Codes
guest_file_name path = resolve_guest_path path [] >>= λ resolved. ok (name_of resolved)

unfoldable pub bad_name : Codes → Bool
bad_name name =
    name == [] || includes name 47 || includes name 92 || name == codes "." || name == codes ".."

-- `if (parent === null) throw …`
abbrev pub or_invalid : Option Codes → Resolved Codes
or_invalid none = throw invalid_path
or_invalid (some parent) = ok parent

unfoldable pub guest_rename_dest : (from new_name : Codes) → Resolved Codes
guest_rename_dest from new_name =
    let name = trim new_name in
    if bad_name name
    then throw invalid_name
    else guest_path_parent from >>= or_invalid >>= λ parent. resolve_guest_path parent name

pub record Crumb : Type 0 where
  pub name : Codes
  pub path : Codes

-- `for (const part of parts) { acc += …; crumbs.push(…); }`
unfoldable pub crumbs_from : (acc : Codes) → List Codes → List Crumb
crumbs_from acc [] = []
crumbs_from acc (part ∷ parts) =
    let next = acc ++ 47 ∷ part in record { name = part; path = next } ∷ crumbs_from next parts

unfoldable pub present : List Codes → List Codes
present [] = []
present (part ∷ parts) = let rest = present parts in if part == [] then rest else part ∷ rest

unfoldable pub guest_path_crumbs : Codes → Resolved (List Crumb)
guest_path_crumbs path = resolve_guest_path path [] >>= λ resolved. ok (
    record { name = root; path = root }
    ∷ (if resolved == root then [] else crumbs_from [] (present (split 47 resolved))))
