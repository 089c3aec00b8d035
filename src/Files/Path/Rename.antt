-- ===== src/Files/Path/Rename.antt =====
-- The path that a file is renamed to.
use proxora.Common.{
  List, [], ◌∷◌, true, false, Option, none, some, ◌≡◌, refl, sym, ◌∙◌, subst, arith, Codes, all,
  includes, nat_eq, trim,
}
use proxora.Files.Path.{
  ok, ◌>>=◌, join, path_of, resolve_guest_path, parent_of, guest_path_parent, guest_file_name,
  bad_name, or_invalid, guest_rename_dest,
}
use proxora.Files.Path.Parts.{is_part}
use proxora.Files.Path.Laws.{
  IsPathOf, IsNormal, bind_ok, within_ok, resolve_ok, resolve_guest_path-IsNormal, resolve_joined,
  resolve-IsPathOf,
}
use proxora.Files.Path.Ends.{
  parent_of-path_of, name_of-path_of, in_parent, in_parent-path_of, joined-in_parent, is_part_name,
  in_parent_free,
}

parent_of_root : parent_of (path_of []) ≡ none
unfolding parent_of path_of join
parent_of_root = refl

parent_of-some :
    (parts : List Codes) (parent : Codes)
    → all is_part parts ≡ true
    → parent_of (path_of parts) ≡ some parent
    → (rest : List Codes) × (all is_part rest ≡ true) × (parent ≡ path_of rest)
parent_of-some [] parent h found = cc (found, parent_of_root)
parent_of-some (x ∷ rest) parent h found =
    let at = parent_of-path_of x rest (ground arith) in (rest, ground arith, cc (found, at))

or_invalid_ok : (o : Option Codes) (parent : Codes) → or_invalid o ≡ ok parent → o ≡ some parent
or_invalid_ok none parent h = cc
or_invalid_ok (some p) parent h = cc

found_at : {a o b : Option Codes} → ok a ≡ ok o → o ≡ b → a ≡ b
found_at same there = cc

-- a directory that is found
parent_found :
    (from parent : Codes)
    → (guest_path_parent from >>= or_invalid) ≡ ok parent
    → (guest_path_parent from ≡ ok (some parent))
      × ((rest : List Codes) × (all is_part rest ≡ true) × (parent ≡ path_of rest))
unfolding guest_path_parent IsNormal IsPathOf
parent_found from parent h =
    let (o, got, valid) = bind_ok (guest_path_parent from) or_invalid parent h in
    let there = or_invalid_ok o parent valid in
    let (path, resolved, same) =
      bind_ok (resolve_guest_path from []) (λ path. ok (parent_of path)) o got in
    let (parts, (clean, text, fits)) = resolve_guest_path-IsNormal from [] path resolved in
    let found : parent_of (path_of parts) ≡ some parent =
      subst (λ s. parent_of s ≡ some parent) text (found_at same there) in
    (subst (λ o. guest_path_parent from ≡ ok o) there got, parent_of-some parts parent clean found)

-- A name without a slash behind a directory: what it resolves to is the name in that directory.
resolved_in :
    (rest : List Codes) (name dest : Codes)
    → all is_part rest ≡ true
    → bad_name name ≡ false
    → resolve_guest_path (path_of rest) name ≡ ok dest
    → IsPathOf (name ∷ rest) dest
unfolding IsPathOf
resolved_in rest name dest clean good h =
    let text = joined-in_parent rest name good in
    let (free, unused) = resolve_ok (path_of rest) name dest h in
    let free' : includes (in_parent rest name) 0 ≡ false = rw text at free in
    let part = is_part_name name good (in_parent_free rest name free') in
    let clean' : all is_part (name ∷ rest) ≡ true = ground arith in
    let within' =
      resolve_joined (path_of rest) name (name ∷ rest) clean'
        (text ∙ in_parent-path_of rest name clean) in
    let (same, fits) = within_ok (path_of (name ∷ rest)) dest (sym within' ∙ h) in
    (clean', sym same, rw same at fits)

-- A rename stays in the directory of the file, and the file then has the name that was given, less the
-- white space around it.
pub guest_rename_dest-stays :
    (from new_name dest : Codes)
    → guest_rename_dest from new_name ≡ ok dest
    → (guest_path_parent dest ≡ guest_path_parent from)
      × (guest_file_name dest ≡ ok (trim new_name))
unfolding guest_rename_dest guest_path_parent guest_file_name IsPathOf
guest_rename_dest-stays from new_name dest h =
    let name = trim new_name in
    let good : bad_name name ≡ false = ground arith in
    let (parent, found, resolved) =
      bind_ok (guest_path_parent from >>= or_invalid) (λ parent. resolve_guest_path parent name)
        dest (ground arith) in
    let (directory, (rest, clean, text)) = parent_found from parent found in
    let placed =
      resolved_in rest name dest clean good
        (subst (λ p. resolve_guest_path p name ≡ ok dest) text resolved) in
    let again = resolve-IsPathOf (name ∷ rest) dest placed in
    let part : is_part name ≡ true = ground arith in
    rw
      (
        again,
        directory,
        placed.1,
        parent_of-path_of name rest part,
        name_of-path_of name rest part,
        text,
      )
      (refl, refl)
