-- ===== src/Users/Accounts/Asked.antt =====
-- The hosts and guests that a request asks for, and the rows that stand for them.
use proxora.Common.{
  String, List, [], ◌∷◌, true, false, Option, none, some, ◌≡◌, refl, map, string_eq, ◌||◌,
  if◌then◌else◌, sym,
}
use proxora.Scope.{HostAccessGrant, GuestAccessGrant}
use proxora.Rbac.Guests.{normalize_guest_permissions}
use proxora.Kind.{kind_name}
use proxora.Users.{
  GuestGrantInput, GuestGrant, HostGrantInput, HostGrantDto, to_host_grants, to_guest_grants,
  is_given, given_permissions, host_row, plain_host_row, host_rows_from_input,
  guest_rows_from_input,
}
use proxora.Users.Grants.{
  sanitized_grant, normalized_grant, to_host_grants-host_rows_from_input,
  to_guest_grants-guest_rows_from_input,
}
use proxora.Users.Accounts.Rows.{guests_written, rows_of}

-- The row of a host: `none` is a host with the rights of the role.
abbrev pub granting_host : HostGrantDto → HostAccessGrant
granting_host h = elim h.permissions [
  | none ↦ record { host_id = h.host_id; override = false; permissions = some [] }
  | some granted ↦ record { host_id = h.host_id; override = true; permissions = some granted }
]

abbrev pub granting_guest : GuestGrant → GuestAccessGrant
granting_guest g = elim g.permissions [
  | none ↦ record {
    host_id = g.host_id;
    kind = kind_name g.kind;
    vmid = g.vmid;
    override = false;
    permissions = some [];
  }
  | some granted ↦ record {
    host_id = g.host_id;
    kind = kind_name g.kind;
    vmid = g.vmid;
    override = true;
    permissions = some granted;
  }
]

abbrev pub plain_grant : String → HostGrantDto
plain_grant host_id = record { host_id = host_id; permissions = none }

-- The hosts that a request asks for, or `none` if it leaves the hosts alone: a list of hosts that is
-- not empty goes before the list of ids.
abbrev pub asked_hosts :
    Option (List HostGrantInput) → Option (List String) → Option (List HostGrantDto)
asked_hosts none none = none
asked_hosts (some []) none = some []
asked_hosts (some (h ∷ hosts)) none = some (map sanitized_grant (h ∷ hosts))
asked_hosts none (some host_ids) = some (map plain_grant host_ids)
asked_hosts (some []) (some host_ids) = some (map plain_grant host_ids)
asked_hosts (some (h ∷ hosts)) (some host_ids) = some (map sanitized_grant (h ∷ hosts))

-- What is asked for, or what there was.
abbrev pub asked_or {ℓ k} : {A : Type ℓ} {B : Type k} → (A → B) → B → Option A → B
asked_or taken old none = old
asked_or taken old (some new) = taken new

granting_host-sanitized :
    (h : HostGrantInput) (o : Option (List String))
    → h.permissions ≡ o
    → granting_host (sanitized_grant h) ≡ host_row h
unfolding host_row
granting_host-sanitized h none e = rw e refl
granting_host-sanitized h (some granted) e = rw e refl

map-granting_host :
    (hosts : List HostGrantInput)
    → map granting_host (map sanitized_grant hosts) ≡ map host_row hosts
map-granting_host [] = refl
map-granting_host (h ∷ hosts) =
    rw (granting_host-sanitized h h.permissions refl) (rw (map-granting_host hosts) refl)

map-plain_grant :
    (host_ids : List String)
    → (map granting_host (map plain_grant host_ids) ≡ map plain_host_row host_ids)
      × (to_host_grants (map plain_host_row host_ids) ≡ map plain_grant host_ids)
unfolding plain_host_row to_host_grants
map-plain_grant [] = (refl, refl)
map-plain_grant (host_id ∷ host_ids) =
    (rw (map-plain_grant host_ids).0 refl, rw (map-plain_grant host_ids).1 refl)

granting_guest-normalized :
    (g : GuestGrantInput) (o : Option (List String))
    → g.permissions ≡ o
    → granting_guest (normalized_grant g) ≡ record {
      host_id = g.host_id;
      kind = kind_name g.kind;
      vmid = g.vmid;
      override = is_given g.permissions;
      permissions = some (given_permissions (normalize_guest_permissions g.kind) g.permissions);
    }
granting_guest-normalized g none e = rw e refl
granting_guest-normalized g (some granted) e = rw e refl

map-granting_guest :
    (guests : List GuestGrantInput)
    → map granting_guest (map normalized_grant guests) ≡ guest_rows_from_input guests
unfolding guest_rows_from_input
map-granting_guest [] = refl
map-granting_guest (g ∷ guests) =
    rw (granting_guest-normalized g g.permissions refl) (rw (map-granting_guest guests) refl)

to_host_grants-none : to_host_grants [] ≡ []
unfolding to_host_grants
to_host_grants-none = refl

pub hosts_asked :
    (hosts : Option (List HostGrantInput)) (host_ids : Option (List String))
    (old : List HostAccessGrant)
    → let rows =
        if is_given hosts || is_given host_ids then host_rows_from_input hosts host_ids else old in
      (rows ≡ asked_or (map granting_host) old (asked_hosts hosts host_ids))
      × (to_host_grants rows
          ≡ asked_or (λ hosts. hosts) (to_host_grants old) (asked_hosts hosts host_ids))
unfolding host_rows_from_input
hosts_asked none none old = (refl, refl)
hosts_asked (some []) none old = (refl, to_host_grants-none)
hosts_asked (some (h ∷ hosts)) none old =
    (sym (map-granting_host (h ∷ hosts)), to_host_grants-host_rows_from_input h hosts none)
hosts_asked none (some host_ids) old =
    (sym (map-plain_grant host_ids).0, (map-plain_grant host_ids).1)
hosts_asked (some []) (some host_ids) old =
    (sym (map-plain_grant host_ids).0, (map-plain_grant host_ids).1)
hosts_asked (some (h ∷ hosts)) (some host_ids) old = (
  sym (map-granting_host (h ∷ hosts)),
  to_host_grants-host_rows_from_input h hosts (some host_ids),
)

pub guests_asked :
    (guests : Option (List GuestGrantInput)) (old : List GuestAccessGrant)
    → (guests_written guests old
        ≡ asked_or (λ guests. map granting_guest (map normalized_grant guests)) old guests)
      × (to_guest_grants (guests_written guests old)
          ≡ asked_or (map normalized_grant) (to_guest_grants old) guests)
guests_asked none old = (refl, refl)
guests_asked (some guests) old =
    (sym (map-granting_guest guests), to_guest_grants-guest_rows_from_input guests)

pub hosts_given :
    (hosts : Option (List HostGrantInput)) (host_ids : Option (List String))
    → asked_or (map granting_host) [] (asked_hosts hosts host_ids)
      ≡ host_rows_from_input hosts host_ids
unfolding host_rows_from_input
hosts_given none none = refl
hosts_given none (some host_ids) = sym (hosts_asked none (some host_ids) []).0
hosts_given (some hosts) host_ids = sym (hosts_asked (some hosts) host_ids []).0

pub guests_given :
    (guests : Option (List GuestGrantInput))
    → asked_or (λ guests. map granting_guest (map normalized_grant guests)) [] guests
      ≡ rows_of guests
guests_given none = refl
guests_given (some guests) = map-granting_guest guests
