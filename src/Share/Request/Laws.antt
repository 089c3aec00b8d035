-- ===== src/Share/Request/Laws.antt =====
-- Which permissions proxied calls need.
use proxora.Common.{
  String, List, [], ◌∷◌, ◌++◌, Bool, true, Option, none, some, ◌≡◌, refl, arith, all, map, Codes,
  ◌⧺◌,
}
use proxora.Kind.{Kind, vm, lxc, kind_name}
use proxora.Rbac.Catalog.{Permission}
use proxora.Share.Levels.{tables}
use proxora.Share.Ceiling.{is_grantable}
use proxora.Share.Request.{
  Extra, Call, call_of, guest_action_permission, guest_permission, data_permission, call_permission,
  federation_permission,
}

abbrev pub guest_outcomes : Kind → List Permission
guest_outcomes kind =
    map (λ (w : String). kind_name kind ⧺ w)
      (".start" ∷ ".force-stop" ∷ ".shutdown" ∷ ".reboot" ∷ ".clone" ∷ ".migrate" ∷ ".console"
        ∷ ".snapshot.rollback" ∷ ".snapshot.delete" ∷ ".snapshot.create" ∷ ".view" ∷ ".delete"
        ∷ ".config" ∷ [])
    ++ "vm.reset" ∷ "vm.pause" ∷ "vm.resume" ∷ []

abbrev pub data_outcomes : List Permission
data_outcomes =
    "backup.view" ∷ "backup.delete" ∷ "backup.restore" ∷ "backup.run" ∷ "storage.view"
    ∷ "storage.delete" ∷ "zfs.view" ∷ "tasks.cancel" ∷ "tasks.view" ∷ "hosts.view" ∷ []

abbrev pub host_outcomes : List Permission
host_outcomes =
    "hosts.view" ∷ "hosts.reboot" ∷ "hosts.shutdown" ∷ "hosts.console" ∷ "updates.view"
    ∷ "updates.check" ∷ "updates.upgrade" ∷ "vm.create" ∷ "lxc.create" ∷ []

abbrev pub pair : List Permission
pair = "hosts.console" ∷ "updates.upgrade" ∷ []

abbrev pub permitted : (List Permission → Bool) → Option (List Permission) → Bool
permitted q none = true
permitted q (some needed) = q needed

module _ (q : List Permission → Bool) where
  abbrev pub Each : List Permission → Type 0
  Each ps = all q (map (λ p. p ∷ []) ps) ≡ true

  guest_action-outcomes :
      (kind : Kind) (c : Call)
      → Each (guest_outcomes kind)
      → q (guest_action_permission kind c ∷ []) ≡ true
  unfolding guest_action_permission
  guest_action-outcomes kind c h = ground arith

  guest-outcomes :
      (kind : Kind) (c : Call)
      → Each (guest_outcomes kind)
      → permitted q (guest_permission kind c) ≡ true
  unfolding guest_permission
  guest-outcomes kind c h = ground (arith, guest_action-outcomes kind c h)

  data-outcomes : (c : Call) → Each data_outcomes → permitted q (data_permission c) ≡ true
  unfolding data_permission
  data-outcomes c h = ground arith

  abbrev pub Outcomes : Type 0
  Outcomes =
      (q pair ≡ true)
      × Each host_outcomes
      × Each data_outcomes
      × Each (guest_outcomes vm)
      × Each (guest_outcomes lxc)

  node_outcomes :
      (c : Call)
      → q pair ≡ true
      → Each host_outcomes
      → permitted q (data_permission c) ≡ true
      → permitted q (guest_permission vm c) ≡ true
      → permitted q (guest_permission lxc c) ≡ true
      → permitted q (call_permission c) ≡ true
  unfolding call_permission
  node_outcomes c on_pair on_host on_data on_vm on_lxc = ground arith

  -- What holds of all Outcomes holds of what a call needs.
  pub call_permission-outcomes : (c : Call) → Outcomes → permitted q (call_permission c) ≡ true
  call_permission-outcomes c (on_pair, on_host, on_data, on_vm, on_lxc) =
      node_outcomes c on_pair on_host (data-outcomes c on_data) (guest-outcomes vm c on_vm)
        (guest-outcomes lxc c on_lxc)

grantable_outcomes : Outcomes (all is_grantable)
unfolding tables is_grantable kind_name
grantable_outcomes = (refl, refl, refl, refl, refl)

-- Every permission that a proxied call may need can be granted on a host, whatever the method, the path
-- and the command: no call needs a permission that a share can never hold.
pub federation_permission-grantable :
    (method path : Codes) (extra : Extra) (needed : List Permission)
    → federation_permission method path extra ≡ some needed
    → all is_grantable needed ≡ true
unfolding federation_permission
federation_permission-grantable method path extra needed h =
    let law =
      call_permission-outcomes (all is_grantable) (call_of method path extra) grantable_outcomes in
    rw h at law
