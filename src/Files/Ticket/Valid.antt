-- ===== src/Files/Ticket/Valid.antt =====
-- Every ticket in the store has a path, an address, a port and a way to sign in that can be used.
use proxora.Common.{
  ℕ, String, [], Bool, true, not, Option, none, some, ◌≡◌, ◌≤◌, refl, sym, ap, subst, arith, lookup,
  All, All-filter, All-remove, All-insert, if_cases, string_eq, codes_eq, Codes, length, leb, ◌&&◌,
  ◌||◌, ◌==◌,
}
use proxora.Files.Path as Paths
use proxora.Files.Path.{resolve_guest_path}
use proxora.Files.Path.Laws.{IsNormal, resolve_guest_path-IsNormal}
use proxora.Files.Target as Target
use proxora.Files.Target.{
  GivenPort, absent, whole, other, is_allowed_sftp_target, clamp_sftp_port, has_guest_ssh_auth,
  looks_like_ssh_private_key,
}
use proxora.Files.Target.Laws.{IsPlainTarget, is_allowed_sftp_target-IsPlainTarget}
use proxora.Files.Ticket.{
  Ticket, Input, Store, Outcome, done, refused, failed, ◌>>=◌, prune_tickets, row_of, sign_in,
  ticket_from, new_ticket, create_guest_transfer_ticket, take_guest_transfer_ticket, stored, taken,
  may_take,
}

-- A port is one of TCP.
pub clamp_sftp_port-bounds :
    (given : GivenPort) (port : ℕ)
    → clamp_sftp_port given ≡ Target.ok port
    → (1 ≤ port) × (port ≤ 65535)
unfolding clamp_sftp_port
clamp_sftp_port-bounds absent port h = ground arith
clamp_sftp_port-bounds (whole n) port h = ground arith
clamp_sftp_port-bounds other port h = cc

-- A user name that is not empty and has at most 64 characters, and a password or a private key.
unfoldable pub has_user : Ticket → Bool
has_user t =
    not (t.username == [])
    && leb (length t.username) 64
    && has_guest_ssh_auth t.password t.private_key
    && (t.private_key == [] || looks_like_ssh_private_key t.private_key)
    && (t.mode == "download" || t.mode == "upload")

unfoldable pub IsValid : Ticket → Type 0
IsValid t =
    IsNormal t.path × IsPlainTarget t.target × (1 ≤ t.port) × (t.port ≤ 65535) × (has_user t ≡ true)

sign_in_done :
    (now : ℕ) (id : String) (input : Input) (path target : Codes) (port : ℕ)
    → (input.mode == "download" || input.mode == "upload") ≡ true
    → sign_in input ≡ done tt
    → has_user (row_of now id input path target port) ≡ true
unfolding sign_in has_user
sign_in_done now id input path target port known h = ground arith

sign_in_from :
    (input : Input) (t row : Ticket)
    → (sign_in input >>= λ ready. done row) ≡ done t
    → (sign_in input ≡ done tt) × (row ≡ t)
unfolding sign_in
sign_in_from input t row h = ground arith

ticket_from_done :
    (now : ℕ) (id : String) (input : Input) (resolved : Paths.Resolved Codes)
    (allowed : Target.Checked Codes) (clamped : Target.Checked ℕ) (t : Ticket)
    → ticket_from now id input resolved allowed clamped ≡ done t
    → (resolved ≡ Paths.ok t.path)
      × (allowed ≡ Target.ok t.target)
      × (clamped ≡ Target.ok t.port)
      × (sign_in input ≡ done tt)
      × (row_of now id input t.path t.target t.port ≡ t)
unfolding ticket_from
ticket_from_done now id input (Paths.throw e) allowed clamped t h = cc
ticket_from_done now id input (Paths.ok path) (Target.throw e) clamped t h = cc
ticket_from_done now id input (Paths.ok path) (Target.ok target) (Target.throw e) t h = cc
ticket_from_done now id input (Paths.ok path) (Target.ok target) (Target.ok port) t h =
    let (signed, same) = sign_in_from input t (row_of now id input path target port) h in
    (
      ap (λ (r : Ticket). Paths.ok r.path) same,
      ap (λ (r : Ticket). Target.ok r.target) same,
      ap (λ (r : Ticket). Target.ok r.port) same,
      signed,
      subst (λ (r : Ticket). row_of now id input r.path r.target r.port ≡ r) same refl,
    )

pub new_ticket-IsValid :
    (now : ℕ) (id : String) (input : Input) (t : Ticket)
    → new_ticket now id input ≡ done t
    → IsValid t × (t.id ≡ id)
unfolding new_ticket IsValid
new_ticket-IsValid now id input t h =
    let known : (input.mode == "download" || input.mode == "upload") ≡ true = ground arith in
    let (resolved, allowed, clamped, signed, row) =
      ticket_from_done now id input (resolve_guest_path input.path [])
        (is_allowed_sftp_target input.target) (clamp_sftp_port input.port) t (ground arith) in
    let user = sign_in_done now id input t.path t.target t.port known signed in
    let port = clamp_sftp_port-bounds input.port t.port clamped in
    (
      (
        resolve_guest_path-IsNormal input.path [] t.path resolved,
        (is_allowed_sftp_target-IsPlainTarget input.target t.target allowed).0,
        port.0,
        port.1,
        subst (λ r. has_user r ≡ true) row user,
      ),
      sym (ap (λ (r : Ticket). r.id) row),
    )

-- A key of the store with the ticket that it stands for.
unfoldable pub IsValidEntry : String × Ticket → Type 0
IsValidEntry (key, t) = IsValid t × (t.id ≡ key)

stored-IsValid :
    (store : Store) (r : Outcome Ticket)
    → ((t : Ticket) → r ≡ done t → IsValid t)
    → All IsValidEntry store
    → All IsValidEntry (stored store r).0
unfolding IsValidEntry
stored-IsValid store (done t) valid h =
    All-insert IsValidEntry t.id t store (λ key same. (valid t refl, sym same)) h
stored-IsValid store (refused e) valid h = h
stored-IsValid store (failed e) valid h = h

taken-IsValid :
    (id user mode : String) (now : ℕ) (store : Store) (row : Option Ticket)
    → All IsValidEntry store
    → All IsValidEntry (taken id user mode now store row).0
taken-IsValid id user mode now store none h = All-remove IsValidEntry id store h
taken-IsValid id user mode now store (some row) h =
    if_cases (λ (r : Store × Outcome Ticket). All IsValidEntry r.0) (may_take user mode now row) _ _
      (λ yes. h) (λ no. All-remove IsValidEntry id store h)

prune-IsValid :
    (now : ℕ) (store : Store) → All IsValidEntry store → All IsValidEntry (prune_tickets now store)
unfolding prune_tickets
prune-IsValid now store h = All-filter IsValidEntry (λ kv. not (leb kv.1.expires_at now)) store h

pub create-IsValid :
    (pruned_at now : ℕ) (id : String) (input : Input) (store : Store)
    → All IsValidEntry store
    → All IsValidEntry (create_guest_transfer_ticket pruned_at now id input store).0
unfolding create_guest_transfer_ticket
create-IsValid pruned_at now id input store h =
    stored-IsValid (prune_tickets pruned_at store) (new_ticket now id input)
      (λ t made. (new_ticket-IsValid now id input t made).0) (prune-IsValid pruned_at store h)

pub take-IsValid :
    (pruned_at now : ℕ) (id user mode : String) (store : Store)
    → All IsValidEntry store
    → All IsValidEntry (take_guest_transfer_ticket pruned_at now id user mode store).0
unfolding take_guest_transfer_ticket
take-IsValid pruned_at now id user mode store h =
    taken-IsValid id user mode now (prune_tickets pruned_at store)
      (lookup id (prune_tickets pruned_at store)) (prune-IsValid pruned_at store h)
