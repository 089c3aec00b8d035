-- ===== src/Files/Ticket.antt =====
-- server/services/guest-file-tickets.ts: the tickets for a transfer. The clock readings and the random id are
-- arguments. An entry of the input that is not given is `none`, or the empty text where the code reads it so.
pub mod Valid
pub mod Runs
pub mod Taken
mod Tests
use proxora.Common.{
  ℕ, ◌+◌, ◌*◌, String, List, [], ◌∷◌, Bool, true, false, not, Option, none, some, filter, lookup,
  insert, remove, string_eq, codes_eq, Codes, codes, trim, length, leb, ltb, ◌&&◌, ◌||◌, ◌==◌,
  if◌then◌else◌,
}
use proxora.Errors.{AppError, validation, not_found}
use proxora.Kind.{Kind}
use proxora.Files.Path as Paths
use proxora.Files.Path.{Resolved, PathError, resolve_guest_path, guest_file_name}
use proxora.Files.Target as Target
use proxora.Files.Target.{
  Checked, TargetError, GivenPort, is_allowed_sftp_target, clamp_sftp_port, has_guest_ssh_auth,
  looks_like_ssh_private_key,
}

pub record Ticket : Type 0 where
  pub id : String
  pub user_id : String
  pub host_id : String
  pub kind : Kind
  pub node : String
  pub vmid : ℕ
  pub path : Codes
  pub target : Codes
  pub port : ℕ
  pub username : Codes
  pub password : Codes
  pub private_key : Codes
  pub passphrase : Codes
  pub mode : String
  pub expires_at : ℕ

pub record Input : Type 0 where
  pub user_id : String
  pub host_id : String
  pub kind : Kind
  pub node : String
  pub vmid : ℕ
  pub path : Codes
  pub target : Codes
  pub port : GivenPort
  pub username : Codes
  pub password : Codes
  pub private_key : Codes
  pub passphrase : Codes
  pub mode : String
  pub expires_at : Option ℕ

-- The answer to the browser.
pub record Given : Type 0 where
  pub ticket : String
  pub path : Codes
  pub name : Codes
  pub mode : String

abbrev pub Store : Type 0
Store = List (String × Ticket)

-- `failed` is an error that is not meant for the user.
pub data Outcome {ℓ} (A : Type ℓ) : Type ℓ where
  done : A → Outcome A
  refused : AppError → Outcome A
  failed : PathError → Outcome A

infixl 5 ◌>>=◌
abbrev pub ◌>>=◌ {ℓ κ} : {A : Type ℓ} {B : Type κ} → Outcome A → (A → Outcome B) → Outcome B
r >>= next = elim r [ done value ↦ next value | refused e ↦ refused e | failed e ↦ failed e ]

abbrev pub ttl_ms : ℕ
ttl_ms = 30 * 60 * 1000

unfoldable pub prune_tickets : (now : ℕ) → Store → Store
prune_tickets now store = filter (λ kv. not (leb kv.1.expires_at now)) store

abbrev path_message : PathError → String
path_message Paths.invalid_path = "Invalid path"
path_message Paths.invalid_name = "Invalid name"
path_message Paths.too_long = "Path too long"

abbrev target_message : TargetError → String
target_message Target.invalid_host = "Invalid SSH host"
target_message Target.invalid_port = "Invalid SSH port"

-- the steps inside of the `try`
abbrev pub checked_path : Resolved Codes → Outcome Codes
checked_path (Paths.ok path) = done path
checked_path (Paths.throw e) = refused (validation (path_message e))

abbrev pub checked {ℓ} : {A : Type ℓ} → Checked A → Outcome A
checked (Target.ok value) = done value
checked (Target.throw e) = refused (validation (target_message e))

-- a guard: an error, or on to the rest
abbrev pub require : Bool → String → Outcome (Unit {0})
require true message = done tt
require false message = refused (validation message)

abbrev or_expiry : Option ℕ → ℕ → ℕ
or_expiry none now = now + ttl_ms
or_expiry (some at) now = at

abbrev pub row_of : (now : ℕ) (id : String) → Input → (path target : Codes) (port : ℕ) → Ticket
row_of now id input path target port = record {
  id = id;
  user_id = input.user_id;
  host_id = input.host_id;
  kind = input.kind;
  node = input.node;
  vmid = input.vmid;
  path = path;
  target = target;
  port = port;
  username = trim input.username;
  password = input.password;
  private_key = trim input.private_key;
  passphrase = input.passphrase;
  mode = input.mode;
  expires_at = or_expiry input.expires_at now;
}

-- The guards behind the `try`.
unfoldable pub sign_in : Input → Outcome (Unit {0})
sign_in input =
    let username = trim input.username in
    let private_key = trim input.private_key in
    require (not (username == []) && leb (length username) 64) "SSH-Benutzer fehlt" >>= λ named.
    require (has_guest_ssh_auth input.password private_key) "SSH-Passwort oder Schlüssel fehlt"
    >>= λ given.
        require (private_key == [] || looks_like_ssh_private_key private_key)
          "Ungültiger SSH-Schlüssel"

-- The row that is stored, from what the steps inside of the `try` return.
unfoldable pub ticket_from :
    (now : ℕ) (id : String) → Input → Resolved Codes → Checked Codes → Checked ℕ → Outcome Ticket
ticket_from now id input resolved allowed clamped = checked_path resolved >>= λ path.
    checked allowed >>= λ target. checked clamped >>= λ port.
    sign_in input >>= λ ready. done (row_of now id input path target port)

unfoldable pub new_ticket : (now : ℕ) (id : String) → Input → Outcome Ticket
new_ticket now id input =
    require (input.mode == "download" || input.mode == "upload") "Ungültiger Transfer" >>= λ known.
    ticket_from now id input (resolve_guest_path input.path [])
      (is_allowed_sftp_target input.target) (clamp_sftp_port input.port)

abbrev pub named_answer : Ticket → Resolved Codes → Outcome Given
named_answer t (Paths.ok name) =
    done (record { ticket = t.id; path = t.path; name = name; mode = t.mode })
named_answer t (Paths.throw e) = failed e

abbrev pub stored : Store → Outcome Ticket → Store × Outcome Given
stored store (done t) = (insert t.id t store, named_answer t (guest_file_name t.path))
stored store (refused e) = (store, refused e)
stored store (failed e) = (store, failed e)

-- The store is pruned at `pruned_at`, and the ticket expires relative to `now`.
unfoldable pub create_guest_transfer_ticket :
    (pruned_at now : ℕ) (id : String) → Input → Store → Store × Outcome Given
create_guest_transfer_ticket pruned_at now id input store =
    stored (prune_tickets pruned_at store) (new_ticket now id input)

unfoldable pub may_take : (user mode : String) (now : ℕ) → Ticket → Bool
may_take user mode now row = row.user_id == user && row.mode == mode && not (leb row.expires_at now)

abbrev pub taken :
    (id user mode : String) (now : ℕ) → Store → Option Ticket → Store × Outcome Ticket
taken id user mode now store none =
    (remove id store, refused (not_found "Transfer abgelaufen oder ungültig"))
taken id user mode now store (some row) =
    if may_take user mode now row
    then (store, done row)
    else (remove id store, refused (not_found "Transfer abgelaufen oder ungültig"))

unfoldable pub take_guest_transfer_ticket :
    (pruned_at now : ℕ) (id user mode : String) → Store → Store × Outcome Ticket
take_guest_transfer_ticket pruned_at now id user mode store =
    let kept = prune_tickets pruned_at store in taken id user mode now kept (lookup id kept)
