-- ===== src/Users/Grants.antt =====
-- From the grants of a request to the rows, and from the rows to the grants that are shown.
use proxora.Common.{
  String, List, [], ◌∷◌, Option, none, some, ◌≡◌, refl, map, if◌then◌else◌, string_eq,
}
use proxora.Kind.{Kind, vm, lxc, kind_name}
use proxora.Scope.{parse_guest_kind}
use proxora.Rbac.Grants.{sanitize_permissions}
use proxora.Rbac.Grants.Laws.{sanitize_permissions_idempotent}
use proxora.Rbac.Guests.{normalize_guest_permissions}
use proxora.Rbac.Guests.Laws.{sanitize_permissions-normalize}
use proxora.Users.{
  GuestGrantInput, GuestGrant, HostGrantInput, HostGrantDto, guest_rows_from_input, to_guest_grants,
  to_host_grants, host_rows_from_input, host_row, is_given, given_permissions,
}

abbrev pub mapped : (List String → List String) → Option (List String) → Option (List String)
mapped normalize none = none
mapped normalize (some granted) = some (normalize granted)

abbrev pub normalized_grant : GuestGrantInput → GuestGrant
normalized_grant g = record {
  host_id = g.host_id;
  kind = g.kind;
  vmid = g.vmid;
  permissions = mapped (normalize_guest_permissions g.kind) g.permissions;
}

parse_guest_kind-kind_name : (kind : Kind) → parse_guest_kind (kind_name kind) ≡ some kind
unfolding parse_guest_kind kind_name
parse_guest_kind-kind_name vm = refl
parse_guest_kind-kind_name lxc = refl

permissions-row :
    (normalize : List String → List String) (o : Option (List String))
    → ((l : List String) → sanitize_permissions (normalize l) ≡ normalize l)
    → (if is_given o then some (sanitize_permissions (given_permissions normalize o)) else none)
      ≡ mapped normalize o
permissions-row normalize none stable = refl
permissions-row normalize (some granted) stable = rw (stable granted) refl

-- The guests of a request come back from the rows that are written for them, in their order, each
-- with its kind and number and with its permissions normalised.
pub to_guest_grants-guest_rows_from_input :
    (guests : List GuestGrantInput)
    → to_guest_grants (guest_rows_from_input guests) ≡ map normalized_grant guests
unfolding to_guest_grants guest_rows_from_input
to_guest_grants-guest_rows_from_input [] = refl
to_guest_grants-guest_rows_from_input (g ∷ guests) = rw (parse_guest_kind-kind_name g.kind) (
    rw (to_guest_grants-guest_rows_from_input guests) (
      rw
        (permissions-row (normalize_guest_permissions g.kind) g.permissions
          (sanitize_permissions-normalize g.kind))
        refl))

abbrev pub sanitized_grant : HostGrantInput → HostGrantDto
sanitized_grant h = record {
  host_id = h.host_id;
  permissions = mapped sanitize_permissions h.permissions;
}

to_host_grants-rows :
    (hosts : List HostGrantInput) → to_host_grants (map host_row hosts) ≡ map sanitized_grant hosts
unfolding to_host_grants host_row
to_host_grants-rows [] = refl
to_host_grants-rows (h ∷ hosts) =
    rw (permissions-row sanitize_permissions h.permissions sanitize_permissions_idempotent)
      (rw (to_host_grants-rows hosts) refl)

-- The same for hosts, whose permissions are sanitised.
pub to_host_grants-host_rows_from_input :
    (h : HostGrantInput) (hosts : List HostGrantInput) (host_ids : Option (List String))
    → to_host_grants (host_rows_from_input (some (h ∷ hosts)) host_ids)
      ≡ map sanitized_grant (h ∷ hosts)
unfolding host_rows_from_input
to_host_grants-host_rows_from_input h hosts host_ids = to_host_grants-rows (h ∷ hosts)
