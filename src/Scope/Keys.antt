-- ===== src/Scope/Keys.antt =====
-- The keys under which the overrides for guests are filed.
use proxora.Common.{
  String, ◌≡◌, sym, ◌∙◌, Free, split_last, decimal, decimal-Free, decimal-injective, ◌⧺◌, arith,
}
use text.Mathlib.TextEquality.{eq_iff}
use text.Mathlib.TextLemmas.{append_assoc}
use proxora.Kind.{Kind, vm, lxc, kind_name}
use proxora.Scope.{GuestScope, guest_scope_key}

kind_name-Free : (k : Kind) → Free b':' (kind_name k)
unfolding kind_name
kind_name-Free vm = omega arith
kind_name-Free lxc = omega arith

kind_name-injective : (j k : Kind) → kind_name j ≡ kind_name k → j ≡ k
unfolding kind_name
kind_name-injective j k e = ground (arith, eq_iff "vm" "lxc")

key_regroup :
    (host kind vmid : String) → host ⧺ ":" ⧺ kind ⧺ ":" ⧺ vmid ≡ (host ⧺ ":" ⧺ kind) ⧺ ":" ⧺ vmid
key_regroup host kind vmid = simp append_assoc

-- Two guests never share a key, not even where a host's name holds colons.
pub guest_scope_key-injective : (a b : GuestScope) → guest_scope_key a ≡ guest_scope_key b → a ≡ b
unfolding guest_scope_key
guest_scope_key-injective a b e =
    let (front, vmid) =
      split_last (a.host_id ⧺ ":" ⧺ kind_name a.kind) (b.host_id ⧺ ":" ⧺ kind_name b.kind)
        (decimal a.vmid) (decimal b.vmid) (decimal-Free a.vmid) (decimal-Free b.vmid)
        (sym (key_regroup _ _ _) ∙ e ∙ key_regroup _ _ _) in
    let (host, kind) =
      split_last a.host_id b.host_id (kind_name a.kind) (kind_name b.kind) (kind_name-Free a.kind)
        (kind_name-Free b.kind) front in
    ground
      (arith, host, kind_name-injective a.kind b.kind kind, decimal-injective a.vmid b.vmid vmid)
