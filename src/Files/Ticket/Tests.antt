-- ===== src/Files/Ticket/Tests.antt =====
-- Tickets, step by step, and the theorems at stores.
use proxora.Common.{
  [], ◌∷◌, none, some, ◌≡◌, refl, arith, codes, starts_with, split, trim, trim_start, trim_end,
  is_space, includes, string_eq, lookup, insert, remove, All, ◌<◌,
}
use proxora.Errors.{not_found, status}
use proxora.Kind.{lxc}
use proxora.Files.Path.{
  without_slashes, joined, slashed, stays, walk, join, path_of, within, resolve_guest_path,
}
use proxora.Files.Target.{
  absent, is_digit, number_from, number_of, is_octet, is_ipv4, is_refused, is_allowed_sftp_target,
  clamp_sftp_port, has_guest_ssh_auth,
}
use proxora.Files.Ticket.{
  Ticket, Input, Store, done, prune_tickets, new_ticket, ticket_from, sign_in,
  create_guest_transfer_ticket, take_guest_transfer_ticket, may_take,
}
use proxora.Files.Ticket.Valid.{IsValidEntry}
use proxora.Files.Ticket.Runs.{create, take, after_all, after_all-IsValid, take-create, spares}
use proxora.Files.Ticket.Taken.{take_guest_transfer_ticket-done, take_guest_transfer_ticket-refused}

running : Unit {0}
unfolding starts_with split trim trim_start trim_end is_space includes lookup insert remove
    without_slashes joined slashed stays walk join path_of within resolve_guest_path is_digit
    number_from number_of is_octet is_ipv4 is_refused is_allowed_sftp_target clamp_sftp_port
    has_guest_ssh_auth prune_tickets new_ticket ticket_from sign_in create_guest_transfer_ticket
    take_guest_transfer_ticket may_take spares status
running = tt

abbrev input : Input
input = record {
  user_id = "u1";
  host_id = "h1";
  kind = lxc;
  node = "pve";
  vmid = 101;
  path = codes "/srv/a";
  target = codes "10.0.0.5";
  port = absent;
  username = codes " root";
  password = codes "x";
  private_key = [];
  passphrase = [];
  mode = "download";
  expires_at = none;
}

abbrev ticket : Ticket
ticket = record {
  id = "t1";
  user_id = "u1";
  host_id = "h1";
  kind = lxc;
  node = "pve";
  vmid = 101;
  path = codes "/srv/a";
  target = codes "10.0.0.5";
  port = 22;
  username = codes "root";
  password = codes "x";
  private_key = [];
  passphrase = [];
  mode = "download";
  expires_at = 1801000;
}

abbrev store : Store
store = ("t1", ticket) ∷ []

ticket_tests :
    (new_ticket 1000 "t1" input ≡ done ticket)
    × ((take_guest_transfer_ticket 2000 2000 "t1" "u2" "download" store).0 ≡ [])
    × ((take_guest_transfer_ticket 2000 2000 "t1" "u1" "download" store).0 ≡ store)
unfolding running
ticket_tests = (refl, refl, refl)

after_all-IsValid_example :
    All IsValidEntry
      (after_all (create 1000 1000 "t1" input ∷ take 2000 2000 "t1" "u1" "download" ∷ []) [])
after_all-IsValid_example =
    after_all-IsValid (create 1000 1000 "t1" input ∷ take 2000 2000 "t1" "u1" "download" ∷ []) [] tt

take-create_example :
    (take_guest_transfer_ticket 9000 9000 "t1" "u1" "download"
      (after_all (create 1000 1000 "t1" input ∷ take 2000 2000 "t1" "u1" "download" ∷ []) [])).1
    ≡ done ticket
unfolding running
take-create_example =
    take-create 1000 1000 "t1" input ticket (take 2000 2000 "t1" "u1" "download" ∷ []) 9000 9000 []
      refl refl (omega arith) (omega arith)

take_guest_transfer_ticket-done_example :
    (lookup "t1" (prune_tickets 2000 store) ≡ some ticket)
    × (ticket.user_id ≡ "u1")
    × (ticket.mode ≡ "download")
    × (2000 < ticket.expires_at)
unfolding running
take_guest_transfer_ticket-done_example =
    take_guest_transfer_ticket-done 2000 2000 "t1" "u1" "download" store ticket refl

take_guest_transfer_ticket-refused_example :
    (status (not_found "Transfer abgelaufen oder ungültig") ≡ 404)
    × (lookup "t1" (take_guest_transfer_ticket 2000 2000 "t1" "u2" "download" store).0 ≡ none)
unfolding running
take_guest_transfer_ticket-refused_example =
    take_guest_transfer_ticket-refused 2000 2000 "t1" "u2" "download" store
      (not_found "Transfer abgelaufen oder ungültig") refl
