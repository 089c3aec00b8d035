-- ===== src/Files/Ticket/Runs.antt =====
-- Sequences of calls on the store of tickets.
use text.Mathlib.TextEquality.{eq_iff}
use proxora.Common.{
  ℕ, ◌<◌, lt→ltb, String, List, [], ◌∷◌, Bool, true, false, not, Option, none, some, ◌≡◌, refl, sym,
  ap, ◌∙◌, subst, arith, lookup, remove, lookup-insert, lookup-remove, ==_refl, Bool-cases, inl,
  inr, if_cases, all, All, string_eq, ltb, ◌&&◌, ◌||◌, ◌==◌,
}
use proxora.Files.Ticket.{
  Ticket, Input, Store, Outcome, done, refused, failed, prune_tickets, new_ticket,
  create_guest_transfer_ticket, take_guest_transfer_ticket, stored, taken, may_take,
}
use proxora.Files.Ticket.Valid.{IsValidEntry, new_ticket-IsValid, create-IsValid, take-IsValid}

-- A call, with its two clock readings.
pub data Event : Type 0 where
  create : (pruned_at now : ℕ) (id : String) → Input → Event
  take : (pruned_at now : ℕ) (id user mode : String) → Event

unfoldable pub after : Event → Store → Store
after (create pruned_at now id input) store =
    (create_guest_transfer_ticket pruned_at now id input store).0
after (take pruned_at now id user mode) store =
    (take_guest_transfer_ticket pruned_at now id user mode store).0

unfoldable pub after_all : List Event → Store → Store
after_all [] store = store
after_all (e ∷ events) store = after_all events (after e store)

-- Every ticket in the store, after any calls on a store of such tickets: it stands under its id, its path
-- is absolute and has no `.` and no `..`, its address is plain, its port is from 1 to 65535, and it has a user
-- name and a way to sign in.
pub after_all-IsValid :
    (events : List Event) (store : Store)
    → All IsValidEntry store
    → All IsValidEntry (after_all events store)
unfolding after_all after
after_all-IsValid [] store h = h
after_all-IsValid (create pruned_at now id input ∷ events) store h =
    after_all-IsValid events _ (create-IsValid pruned_at now id input store h)
after_all-IsValid (take pruned_at now id user mode ∷ events) store h =
    after_all-IsValid events _ (take-IsValid pruned_at now id user mode store h)

-- Calls that leave a ticket alone: before it expires, other tickets, or takes by its user in its mode.
unfoldable pub spares : Ticket → Event → Bool
spares t (create pruned_at now id input) = ltb pruned_at t.expires_at && not (id == t.id)
spares t (take pruned_at now id user mode) =
    ltb pruned_at t.expires_at && (not (id == t.id) || may_take user mode now t)

lookup-prune :
    (now : ℕ) (id : String) (t : Ticket) (store : Store)
    → ltb now t.expires_at ≡ true
    → lookup id store ≡ some t
    → lookup id (prune_tickets now store) ≡ some t
unfolding lookup prune_tickets
lookup-prune now id t [] fresh h = cc
lookup-prune now id t ((k, v) ∷ store) fresh h =
    ground (arith, lookup-prune now id t store, eq_iff k id)

remove-keeps :
    (id : String) (t : Ticket) (store : Store)
    → (id == t.id) ≡ false
    → lookup t.id store ≡ some t
    → lookup t.id (remove id store) ≡ some t
remove-keeps id t store other h = lookup-remove id t.id store ∙ rw other h

taken-keeps_other :
    (id user mode : String) (now : ℕ) (t : Ticket) (store : Store) (row : Option Ticket)
    → (id == t.id) ≡ false
    → lookup t.id store ≡ some t
    → lookup t.id (taken id user mode now store row).0 ≡ some t
taken-keeps_other id user mode now t store none other h = remove-keeps id t store other h
taken-keeps_other id user mode now t store (some row) other h =
    if_cases (λ (r : Store × Outcome Ticket). lookup t.id r.0 ≡ some t) (may_take user mode now row)
      _ _ (λ yes. h) (λ no. remove-keeps id t store other h)

taken-own :
    (id user mode : String) (now : ℕ) (t : Ticket) (store : Store)
    → may_take user mode now t ≡ true
    → lookup id store ≡ some t
    → taken id user mode now store (lookup id store) ≡ (store, done t)
taken-own id user mode now t store may h = rw (h, may) refl

stored-keeps :
    (t : Ticket) (store : Store) (r : Outcome Ticket)
    → ((new : Ticket) → r ≡ done new → (new.id == t.id) ≡ false)
    → lookup t.id store ≡ some t
    → lookup t.id (stored store r).0 ≡ some t
stored-keeps t store (done new) other h =
    lookup-insert new.id t.id new store ∙ rw (other new refl) h
stored-keeps t store (refused e) other h = h
stored-keeps t store (failed e) other h = h

after-keeps :
    (t : Ticket) (e : Event) (store : Store)
    → spares t e ≡ true
    → lookup t.id store ≡ some t
    → lookup t.id (after e store) ≡ some t
unfolding after spares create_guest_transfer_ticket take_guest_transfer_ticket
after-keeps t (create pruned_at now id input) store h found =
    stored-keeps t (prune_tickets pruned_at store) (new_ticket now id input)
      (λ new made. rw ((new_ticket-IsValid now id input new made).1) (ground arith))
      (lookup-prune pruned_at t.id t store (ground arith) found)
after-keeps t (take pruned_at now id user mode) store h found =
    let kept = prune_tickets pruned_at store in
    let found' = lookup-prune pruned_at t.id t store (ground arith) found in
    elim (Bool-cases (id == t.id)) [
      | inl same ↦
          let there : lookup id kept ≡ some t =
            subst (λ k. lookup k kept ≡ some t) (sym ((eq_iff id t.id).0 same)) found' in
          subst (λ (r : Store × Outcome Ticket). lookup t.id r.0 ≡ some t)
            (sym (taken-own id user mode now t kept (ground arith) there)) found'
      | inr other ↦ taken-keeps_other id user mode now t kept (lookup id kept) other found'
    ]

may_own : (t : Ticket) (now : ℕ) → now < t.expires_at → may_take t.user_id t.mode now t ≡ true
unfolding may_take
may_own t now early = ground (arith, ==_refl t.user_id, ==_refl t.mode)

after_all-keeps :
    (t : Ticket) (events : List Event) (store : Store)
    → all (spares t) events ≡ true
    → lookup t.id store ≡ some t
    → lookup t.id (after_all events store) ≡ some t
unfolding after_all
after_all-keeps t [] store h found = found
after_all-keeps t (e ∷ events) store h found =
    after_all-keeps t events (after e store) (ground arith)
      (after-keeps t e store (ground arith) found)

-- A ticket that was created is taken by its user in its mode at any time before it expires, whatever calls
-- came between: calls for other ids, and takes by its user in its mode.
pub take-create :
    (pruned_at now : ℕ) (id : String) (input : Input) (t : Ticket) (events : List Event)
    (taken_pruned_at taken_at : ℕ) (store : Store)
    → new_ticket now id input ≡ done t
    → all (spares t) events ≡ true
    → taken_pruned_at < t.expires_at
    → taken_at < t.expires_at
    → (take_guest_transfer_ticket taken_pruned_at taken_at id t.user_id t.mode
        (after_all (create pruned_at now id input ∷ events) store)).1
      ≡ done t
unfolding take_guest_transfer_ticket after_all after create_guest_transfer_ticket
take-create pruned_at now id input t events taken_pruned_at taken_at store made spared early
      early' =
    let same = (new_ticket-IsValid now id input t made).1 in
    let first = (stored (prune_tickets pruned_at store) (new_ticket now id input)).0 in
    let start : lookup t.id first ≡ some t =
      rw made
        (lookup-insert t.id t.id t (prune_tickets pruned_at store) ∙ rw (==_refl t.id) refl) in
    let last = after_all events first in
    let there = after_all-keeps t events first spared start in
    let kept : lookup id (prune_tickets taken_pruned_at last) ≡ some t =
      subst (λ k. lookup k (prune_tickets taken_pruned_at last) ≡ some t) same
        (lookup-prune taken_pruned_at t.id t last (lt→ltb _ _ early) there) in
    ap (λ (r : Store × Outcome Ticket). r.1)
      (taken-own id t.user_id t.mode taken_at t (prune_tickets taken_pruned_at last)
        (may_own t taken_at early') kept)
