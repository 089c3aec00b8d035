-- ===== src/Files/Tests.antt =====
-- Paths of guests from the tests of the repository, and the theorems at inputs.
use proxora.Common.{
  [], ◌∷◌, none, some, ◌≡◌, refl, codes, starts_with, split, trim, trim_start, trim_end, is_space,
  take, drop, includes, lower, lower_code, ◌++◌,
}
use proxora.Files.Path.Laws.{IsNormal, resolve_guest_path-IsNormal, resolve_guest_path-idempotent}
use proxora.Files.Path.Rename.{guest_rename_dest-stays}
use proxora.Files.Quote.{
  sh_single_quote, quoted_codes, shell_word, bare, is_literal, put_all, shell_word-sh_single_quote,
}
use proxora.Files.Target as Target
use proxora.Files.Target.{
  is_digit, number_from, number_of, is_octet, is_ipv4, is_refused, without_first, without_last,
  is_ipv6_code, ipv6_target, is_allowed_sftp_target,
}
use proxora.Files.Target.Laws.{IsPlainTarget, IsRemote, is_allowed_sftp_target-IsPlainTarget}
use proxora.Files.Path.{
  ok, throw, invalid_path, invalid_name, without_slashes, joined, slashed, stays, walk, join,
  path_of, within, resolve_guest_path, last_index_of, parent_of, guest_path_parent, name_of,
  guest_file_name, bad_name, guest_rename_dest, crumbs_from, present, guest_path_crumbs,
}

running : Unit {0}
unfolding starts_with split trim trim_start trim_end is_space take drop includes without_slashes
    joined slashed stays walk join path_of within resolve_guest_path last_index_of parent_of
    guest_path_parent name_of guest_file_name bad_name guest_rename_dest crumbs_from present
    guest_path_crumbs
running = tt

target_running : Unit {0}
unfolding running is_digit number_from number_of is_octet is_ipv4 is_refused without_first
    without_last is_ipv6_code ipv6_target is_allowed_sftp_target lower lower_code
target_running = tt

path_tests :
    (resolve_guest_path (codes "/var/log/") (codes "../a.txt") ≡ ok (codes "/var/a.txt"))
    × (resolve_guest_path (codes "/etc") (codes "/a//b/.") ≡ ok (codes "/a/b"))
    × (resolve_guest_path (codes "/etc") (codes "../..") ≡ throw invalid_path)
    × (guest_path_parent (codes "/etc") ≡ ok (some (codes "/")))
    × (guest_path_parent (codes "/") ≡ ok none)
    × (guest_file_name (codes "/var/log/x") ≡ ok (codes "x"))
    × (guest_rename_dest (codes "/a/b") (codes " c ") ≡ ok (codes "/a/c"))
    × (guest_rename_dest (codes "/a/b") (codes "c/d") ≡ throw invalid_name)
    × (guest_path_crumbs (codes "/a/b")
        ≡ ok (
            record { name = codes "/"; path = codes "/" }
            ∷ record { name = codes "a"; path = codes "/a" }
            ∷ record { name = codes "b"; path = codes "/a/b" }
            ∷ []))
unfolding running
path_tests = (refl, refl, refl, refl, refl, refl, refl, refl, refl)

quote_tests :
    (sh_single_quote (codes "it's") ≡ codes "'it'\\''s'")
    × (shell_word bare (sh_single_quote (codes "$(x)") ++ codes "/a") ≡ some (codes "$(x)/a"))
    × (shell_word bare (codes "a b") ≡ none)
unfolding sh_single_quote quoted_codes shell_word is_literal
quote_tests = (refl, refl, refl)

target_tests :
    (is_allowed_sftp_target (codes " 192.168.1.9 ") ≡ Target.ok (codes "192.168.1.9"))
    × (is_allowed_sftp_target (codes "127.0.0.1") ≡ Target.throw Target.invalid_host)
    × (is_allowed_sftp_target (codes "::1") ≡ Target.throw Target.invalid_host)
    × (is_allowed_sftp_target (codes "[FD00::2]") ≡ Target.ok (codes "fd00::2"))
    × (is_allowed_sftp_target (codes "lab.test") ≡ Target.throw Target.invalid_host)
    -- Another spelling of the address of this machine.
    × (is_allowed_sftp_target (codes "0:0:0:0:0:0:0:1") ≡ Target.ok (codes "0:0:0:0:0:0:0:1"))
unfolding target_running
target_tests = (refl, refl, refl, refl, refl, refl)

resolve_guest_path-IsNormal_example : IsNormal (codes "/var/a.txt")
unfolding running
resolve_guest_path-IsNormal_example =
    resolve_guest_path-IsNormal (codes "/var/log/") (codes "../a.txt") (codes "/var/a.txt") refl

resolve_guest_path-idempotent_example :
    resolve_guest_path (codes "/var/a.txt") [] ≡ ok (codes "/var/a.txt")
unfolding running
resolve_guest_path-idempotent_example =
    resolve_guest_path-idempotent (codes "/var/log/") (codes "../a.txt") (codes "/var/a.txt") refl

guest_rename_dest-stays_example :
    (guest_path_parent (codes "/a/c") ≡ guest_path_parent (codes "/a/b"))
    × (guest_file_name (codes "/a/c") ≡ ok (trim (codes " c ")))
unfolding running
guest_rename_dest-stays_example =
    guest_rename_dest-stays (codes "/a/b") (codes " c ") (codes "/a/c") refl

shell_word-sh_single_quote_example :
    shell_word bare (sh_single_quote (codes "a'b") ++ codes "/c")
    ≡ put_all (codes "a'b") (shell_word bare (codes "/c"))
shell_word-sh_single_quote_example = shell_word-sh_single_quote (codes "a'b") (codes "/c")

is_allowed_sftp_target-IsPlainTarget_example :
    IsPlainTarget (codes "192.168.1.9") × IsRemote (codes "192.168.1.9")
unfolding target_running
is_allowed_sftp_target-IsPlainTarget_example =
    is_allowed_sftp_target-IsPlainTarget (codes " 192.168.1.9 ") (codes "192.168.1.9") refl
