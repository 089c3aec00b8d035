-- ===== src/Scope/Tests.antt =====
-- Runs of the access checks, and the theorems at concrete rows.
use proxora.Common.{
  List, [], ◌∷◌, true, false, none, some, ◌≡◌, refl, includes, add, add_all, unique, string_eq,
  nat_eq, decimal, insert, lookup, ◌+◌,
}
use proxora.Kind.{vm, lxc, kind_name}
use proxora.Scope.{
  GuestScope, AccessScope, GuestAccessGrant, session_scope_from_grants, guests_of, parse_guest_kind,
  guest_scope_key, can_access_host, can_access_guest, filter_guests_for_user, allowed_hosts,
}

running : Unit {0}
unfolding session_scope_from_grants guests_of parse_guest_kind guest_scope_key can_access_host
    can_access_guest filter_guests_for_user includes add add_all unique decimal kind_name
    allowed_hosts insert lookup
running = tt

abbrev rows : List GuestAccessGrant
rows =
    record { host_id = "pve1"; kind = "vm"; vmid = 104; permissions = none; override = false }
    ∷ record { host_id = "pve1"; kind = "disk"; vmid = 105; permissions = none; override = true }
    ∷ record {
      host_id = "pve2";
      kind = "lxc";
      vmid = 200;
      permissions = some ("lxc.view" ∷ []);
      override = true;
    }
    ∷ []

abbrev scope : AccessScope
scope = record {
  allowed_host_ids = some ("pve1" ∷ "pve2" ∷ []);
  allowed_guests = some (
      record { host_id = "pve1"; kind = vm; vmid = 104 }
      ∷ record { host_id = "pve2"; kind = lxc; vmid = 200 }
      ∷ []);
}

scope_of_rows : (session_scope_from_grants [] rows).access ≡ scope
unfolding running
scope_of_rows = refl

keys_of_rows :
    (session_scope_from_grants [] rows).guest_permissions
    ≡ some (("pve1:vm:104", none) ∷ ("pve2:lxc:200", some ("lxc.view" ∷ [])) ∷ [])
unfolding running
keys_of_rows = refl

shown : filter_guests_for_user (λ vmid. vmid) scope "pve1" vm (103 ∷ 104 ∷ 200 ∷ []) ≡ 104 ∷ []
unfolding running
shown = refl

abbrev spelled_out : GuestScope
spelled_out = record { host_id = "a:vm"; kind = lxc; vmid = 7 + 3 }

abbrev summed : GuestScope
summed = record { host_id = "a:vm"; kind = lxc; vmid = 10 }
