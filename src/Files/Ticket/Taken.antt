-- ===== src/Files/Ticket/Taken.antt =====
-- What a take returns, what it leaves behind when it refuses, and that creating a ticket always answers.
use text.Mathlib.TextEquality.{eq_iff}
use proxora.Common.{
  ℕ, ◌<◌, String, Bool, true, false, Option, none, some, ◌≡◌, refl, arith, lookup, lookup-remove,
  ==_refl, string_eq, nat_eq, codes_eq, Codes, ◌||◌, ◌==◌,
}
use proxora.Errors.{AppError, status}
use proxora.Files.Path as Paths
use proxora.Files.Path.{guest_file_name, resolve_guest_path}
use proxora.Files.Path.Laws.{IsNormal, resolve-IsPathOf}
use proxora.Files.Target as Target
use proxora.Files.Target.{is_allowed_sftp_target, clamp_sftp_port}
use proxora.Files.Ticket.{
  Ticket, Input, Store, Outcome, done, refused, failed, ◌>>=◌, prune_tickets, new_ticket,
  named_answer, ticket_from, sign_in, require, row_of, create_guest_transfer_ticket,
  take_guest_transfer_ticket, stored, taken, may_take,
}
use proxora.Files.Ticket.Valid.{IsValid, new_ticket-IsValid}

taken_done :
    (id user mode : String) (now : ℕ) (store : Store) (found : Option Ticket) (row : Ticket)
    → (taken id user mode now store found).1 ≡ done row
    → (found ≡ some row) × (may_take user mode now row ≡ true)
taken_done id user mode now store none row h = cc
taken_done id user mode now store (some t) row h = ground arith

taken_refused :
    (id user mode : String) (now : ℕ) (store : Store) (found : Option Ticket) (e : AppError)
    → (taken id user mode now store found).1 ≡ refused e
    → (status e ≡ 404) × (lookup id (taken id user mode now store found).0 ≡ none)
unfolding status
taken_refused id user mode now store none e h =
    ground (arith, lookup-remove id id store, ==_refl id)
taken_refused id user mode now store (some t) e h =
    ground (arith, lookup-remove id id store, ==_refl id)

-- A take returns the ticket that the store has under the id, and only to the user that it is for, in its
-- mode, and before it expires.
pub take_guest_transfer_ticket-done :
    (pruned_at now : ℕ) (id user mode : String) (store : Store) (row : Ticket)
    → (take_guest_transfer_ticket pruned_at now id user mode store).1 ≡ done row
    → (lookup id (prune_tickets pruned_at store) ≡ some row)
      × (row.user_id ≡ user)
      × (row.mode ≡ mode)
      × (now < row.expires_at)
unfolding take_guest_transfer_ticket may_take
take_guest_transfer_ticket-done pruned_at now id user mode store row h =
    let kept = prune_tickets pruned_at store in
    let (found, may) = taken_done id user mode now kept (lookup id kept) row h in
    ground (arith, eq_iff row.user_id user, eq_iff row.mode mode)

-- A take that is refused is answered with 404, and nothing stands under the id afterwards: a take by
-- another user, in the other mode or too late ends the ticket.
pub take_guest_transfer_ticket-refused :
    (pruned_at now : ℕ) (id user mode : String) (store : Store) (e : AppError)
    → (take_guest_transfer_ticket pruned_at now id user mode store).1 ≡ refused e
    → (status e ≡ 404)
      × (lookup id (take_guest_transfer_ticket pruned_at now id user mode store).0 ≡ none)
unfolding take_guest_transfer_ticket
take_guest_transfer_ticket-refused pruned_at now id user mode store e h =
    let kept = prune_tickets pruned_at store in
    taken_refused id user mode now kept (lookup id kept) e h

answer_named :
    (t : Ticket)
    → IsValid t
    → (name : Codes) × (named_answer t (guest_file_name t.path)
        ≡ done (record { ticket = t.id; path = t.path; name = name; mode = t.mode }))
unfolding IsValid IsNormal guest_file_name
answer_named t h = (Paths.name_of t.path, rw (resolve-IsPathOf h.0.0 t.path h.0.1) refl)

unfoldable pub never_failed : {A : Type 0} → Outcome A → Bool
never_failed (done value) = true
never_failed (refused e) = true
never_failed (failed e) = false

bind-never_failed :
    {A B : Type 0} (r : Outcome A) (next : A → Outcome B)
    → never_failed r ≡ true
    → ((a : A) → never_failed (next a) ≡ true)
    → never_failed (r >>= next) ≡ true
unfolding never_failed
bind-never_failed (done a) next h k = k a
bind-never_failed (refused e) next h k = refl
bind-never_failed (failed e) next h k = h

require-never_failed : (test : Bool) (message : String) → never_failed (require test message) ≡ true
unfolding never_failed
require-never_failed true message = refl
require-never_failed false message = refl

sign_in-never_failed : (input : Input) → never_failed (sign_in input) ≡ true
unfolding sign_in never_failed
sign_in-never_failed input = ground arith

ticket_from-never_failed :
    (now : ℕ) (id : String) (input : Input) (resolved : Paths.Resolved Codes)
    (allowed : Target.Checked Codes) (clamped : Target.Checked ℕ)
    → never_failed (ticket_from now id input resolved allowed clamped) ≡ true
unfolding ticket_from never_failed
ticket_from-never_failed now id input (Paths.throw e) allowed clamped = refl
ticket_from-never_failed now id input (Paths.ok path) (Target.throw e) clamped = refl
ticket_from-never_failed now id input (Paths.ok path) (Target.ok target) (Target.throw e) = refl
ticket_from-never_failed now id input (Paths.ok path) (Target.ok target) (Target.ok port) =
    bind-never_failed (sign_in input) (λ ready. done (row_of now id input path target port))
      (sign_in-never_failed input) (λ ready. refl)

new_ticket-never_failed :
    (now : ℕ) (id : String) (input : Input) → never_failed (new_ticket now id input) ≡ true
unfolding new_ticket
new_ticket-never_failed now id input =
    bind-never_failed (require (input.mode == "download" || input.mode == "upload") _) _
      (require-never_failed _ _) (λ known. ticket_from-never_failed now id input _ _ _)

stored-never_failed :
    (store : Store) (r : Outcome Ticket)
    → never_failed r ≡ true
    → ((t : Ticket) → r ≡ done t → IsValid t)
    → never_failed (stored store r).1 ≡ true
unfolding never_failed
stored-never_failed store (done t) h valid = rw ((answer_named t (valid t refl)).1) refl
stored-never_failed store (refused e) h valid = refl
stored-never_failed store (failed e) h valid = h

-- Creating a ticket ends with an answer or with an error that is meant for the user, never with another
-- error: the file name in the answer can be taken from every path that the ticket may have.
pub create_guest_transfer_ticket-never_failed :
    (pruned_at now : ℕ) (id : String) (input : Input) (store : Store)
    → never_failed (create_guest_transfer_ticket pruned_at now id input store).1 ≡ true
unfolding create_guest_transfer_ticket
create_guest_transfer_ticket-never_failed pruned_at now id input store =
    stored-never_failed (prune_tickets pruned_at store) (new_ticket now id input)
      (new_ticket-never_failed now id input) (λ t made. (new_ticket-IsValid now id input t made).0)
