-- ===== src/Files/Names.antt =====
-- lib/guest-files.ts: names of part files, the identity of an upload, and names that are there already.
-- Sizes are natural numbers; one that is no finite number is `none`.
use proxora.Common.{
  ℕ, List, [], ◌++◌, Bool, true, false, not, Option, none, some, filter, all, includes, codes_eq,
  nat_eq, Codes, codes, ends_with, trim, lower, length, leb, ltb, ◌&&◌, ◌||◌, ◌==◌, if◌then◌else◌,
}
use proxora.Files.Path.{Resolved, ok, ◌>>=◌, resolve_guest_path, guest_file_name}

abbrev pub part_suffix : Codes
part_suffix = codes ".proxora-part"

abbrev pub meta_suffix : Codes
meta_suffix = codes ".proxora-part.meta"

unfoldable pub is_guest_upload_part_name : Codes → Bool
is_guest_upload_part_name name = ends_with part_suffix name && not (ends_with meta_suffix name)

unfoldable pub is_guest_upload_meta_name : Codes → Bool
is_guest_upload_meta_name name = ends_with meta_suffix name

unfoldable pub guest_upload_part_path : Codes → Resolved Codes
guest_upload_part_path dest = resolve_guest_path dest [] >>= λ path.
    guest_file_name path >>= λ name.
    ok (if is_guest_upload_part_name name then path else path ++ part_suffix)

unfoldable pub guest_upload_meta_path : Codes → Resolved Codes
guest_upload_meta_path dest = guest_upload_part_path dest >>= λ part. ok (part ++ codes ".meta")

unfoldable pub guest_upload_resume_offset : (part_size file_size : Option ℕ) → Option ℕ
guest_upload_resume_offset none file_size = none
guest_upload_resume_offset (some part) none = none
guest_upload_resume_offset (some part) (some file) =
    if part == 0 || ltb file part then none else some part

-- GuestUploadIdentity
pub record Identity : Type 0 where
  pub size : ℕ
  pub prefix : Codes

-- What `JSON.parse` makes of the text of a meta file: `Number(json.size)`, and the prefix if it is a string.
pub record Meta : Type 0 where
  pub size : Option ℕ
  pub prefix : Option Codes

unfoldable pub is_hex : ℕ → Bool
is_hex c = leb 48 c && leb c 57 || leb 97 c && leb c 102

unfoldable pub is_prefix : Codes → Bool
is_prefix prefix = length prefix == 64 && all is_hex prefix

abbrev meta_prefix : Option Codes → Codes
meta_prefix none = []
meta_prefix (some prefix) = lower (trim prefix)

abbrev meta_identity : Option ℕ → Codes → Option Identity
unfolding is_prefix
meta_identity none prefix = none
meta_identity (some size) prefix =
    if not (prefix == []) && not (is_prefix prefix)
    then none
    else some (record { size = size; prefix = prefix })

-- `parse` is `JSON.parse` with the reading of the two entries; a text that it refuses is `none`.
unfoldable pub parse_guest_upload_meta : (parse : Codes → Option Meta) → Codes → Option Identity
unfolding meta_identity
parse_guest_upload_meta parse raw = elim (parse raw) [
  | none ↦ none
  | some json ↦ meta_identity json.size (meta_prefix json.prefix)
]

unfoldable pub guest_upload_identities_match : Option Identity → Identity → Bool
guest_upload_identities_match none given = true
guest_upload_identities_match (some stored) given =
    if stored.prefix == []
    then true
    else if given.prefix == []
    then false
    else stored.size == given.size && stored.prefix == given.prefix

unfoldable pub upload_name_conflicts : (existing files : List Codes) → List Codes
upload_name_conflicts existing files = filter (includes existing) files
