-- ===== src/Federation/Forward.antt =====
-- Which calls of a peer reach a host.
use text.Mathlib.TextEquality.{eq_iff}
use proxora.Common.{
  String, List, [], true, false, Option, none, some, ◌≡◌, ◌↔◌, refl, sym, ap, subst, ◌∙◌,
  Option-cases, inl, inr, arith, codes_eq, string_eq, Codes, ◌&&◌, ◌==◌,
}
use proxora.Errors.{Result, ok, err, ◌>>=◌}
use proxora.Rbac.Catalog.{Permission}
use proxora.Database.Laws.{find_first-test}
use proxora.Share.{ShareLevel, effective_share_permissions, share_has_permission, share_allows}
use proxora.Share.Request.{Extra, federation_permission, federation_action_level}
use proxora.Share.Request.Levels.{federation_action_level-agrees}
use proxora.Federation.{
  PeerKind, Peer, panel_peer, known_peer, Host, HostShare, require_federation_peer, find_share,
  local_share, granted_host, assert_shared_host, Sent, bad_path, proxy_pve_request, post_pve,
}

bind_ok {ℓ κ} :
    {A : Type ℓ} {B : Type κ} (r : Result A) (next : A → Result B) (b : B)
    → (r >>= next) ≡ ok b
    → (a : A) × (r ≡ ok a) × (next a ≡ ok b)
bind_ok (ok a) next b h = (a, refl, h)
bind_ok (err e) next b h = cc

local_share_ok :
    (o : Option HostShare) (share : HostShare)
    → local_share o ≡ ok share
    → (o ≡ some share) × (share.host.is_local ≡ true)
local_share_ok none share h = cc
local_share_ok (some s) share h = ground arith

granted_host_ok :
    (share : HostShare) (needed : Option (List Permission)) (host : Host)
    → granted_host share needed ≡ ok host
    → (ps : List Permission) × (needed ≡ some ps)
      × (share_has_permission share.level (some share.permissions) ps ≡ true)
      × (share.host ≡ host)
granted_host_ok share none host h = cc
granted_host_ok share (some ps) host h = (ps, refl, ground arith, ground arith)

-- What a share lets through: the call is not refused at once, and the share holds one of the
-- permissions that it needs.
unfoldable pub IsGranted : HostShare → (method path : Codes) → Extra → Type 0
IsGranted share method path extra =
    (needed : List Permission) × (federation_permission method path extra ≡ some needed)
    × (share_has_permission share.level (some share.permissions) needed ≡ true)

-- A share of a peer for a host of this panel.
unfoldable pub IsShareFor : Peer → String → HostShare → Type 0
IsShareFor peer host_id share =
    (share.peer_id ≡ peer.id) × (share.host_id ≡ host_id) × (share.host.is_local ≡ true)

assert_shared_host_ok :
    (peer : Peer) (host_id : String) (method path : Codes) (extra : Extra) (shares : List HostShare)
    (host : Host)
    → assert_shared_host peer host_id method path extra shares ≡ ok host
    → (share : HostShare) × (IsShareFor peer host_id share)
      × (share.host ≡ host)
      × (IsGranted share method path extra)
unfolding assert_shared_host IsGranted IsShareFor find_share
assert_shared_host_ok peer host_id method path extra shares host h =
    let (share, found, granted) =
      bind_ok (local_share (find_share peer host_id shares))
        (λ share. granted_host share (federation_permission method path extra)) host h in
    let (there, is_local) = local_share_ok (find_share peer host_id shares) share found in
    let test =
      find_first-test (λ (s : HostShare). s.peer_id == peer.id && s.host_id == host_id) shares share
        there in
    let (needed, same, has, at) =
      granted_host_ok share (federation_permission method path extra) host granted in
    (
      share,
      (
        ground (arith, eq_iff share.peer_id peer.id),
        ground (arith, eq_iff share.host_id host_id),
        is_local,
      ),
      at,
      (needed, same, has),
    )

unfoldable pub host_of : {Q B : Type 0} → Sent Q B → Host
host_of (Sent.get host path query) = host
host_of (Sent.post host path body query) = host
host_of (Sent.put host path body query) = host
host_of (Sent.delete host path query) = host

unfoldable pub path_of : {Q B : Type 0} → Sent Q B → Codes
path_of (Sent.get host path query) = path
path_of (Sent.post host path body query) = path
path_of (Sent.put host path body query) = path
path_of (Sent.delete host path query) = path

proxy_ok :
    {Q B : Type 0} (host : Host) (method path : Codes) (query : Q) (body : B) (sent : Sent Q B)
    → proxy_pve_request host method path query body ≡ ok sent
    → (host_of sent ≡ host) × (path_of sent ≡ path) × (bad_path path ≡ false)
unfolding proxy_pve_request host_of path_of
proxy_ok host method path query body sent h = ground arith

panel_kind_ok :
    (peer known : Peer) (kind : PeerKind)
    → panel_peer known kind ≡ ok peer
    → (known ≡ peer) × (kind ≡ PeerKind.proxora_panel)
panel_kind_ok peer known PeerKind.proxora_panel h = (ground arith, refl)
panel_kind_ok peer known PeerKind.gateway h = cc

known_ok :
    (o : Option Peer) (peer : Peer)
    → known_peer o ≡ ok peer
    → (o ≡ some peer) × (peer.kind ≡ PeerKind.proxora_panel)
known_ok none peer h = cc
known_ok (some known) peer h =
    let (same, kind) = panel_kind_ok peer known known.kind h in
    (ap (λ p. some p) same, subst (λ (p : Peer). p.kind ≡ PeerKind.proxora_panel) same kind)

panel_ok :
    (find_peer : String → Option Peer) (token : Option String) (peer : Peer)
    → require_federation_peer find_peer token ≡ ok peer
    → (text : String) × (token ≡ some text)
      × (find_peer text ≡ some peer)
      × (peer.kind ≡ PeerKind.proxora_panel)
unfolding require_federation_peer
panel_ok find_peer none peer h = cc
panel_ok find_peer (some text) peer h =
    let (found, panel) = known_ok (find_peer text) peer (ground arith) in (text, refl, found, panel)

-- A call that is sent to a host comes from a panel whose token is known, the panel has a share for that host,
-- which is a host of this panel, the share holds one of the permissions that the call needs, and the
-- path begins with a slash and has no `..`: it is sent to that host with that path.
pub post_pve-IsGranted :
    {Q B : Type 0} (find_peer : String → Option Peer) (token : Option String) (host_id : String)
    (method path : Codes) (extra : Extra) (query : Q) (body : B) (shares : List HostShare)
    (sent : Sent Q B)
    → post_pve find_peer token host_id method path extra query body shares ≡ ok sent
    → (text : String) × (peer : Peer) × (share : HostShare) × (token ≡ some text)
      × (find_peer text ≡ some peer)
      × (peer.kind ≡ PeerKind.proxora_panel)
      × IsShareFor peer host_id share
      × IsGranted share method path extra
      × (host_of sent ≡ share.host)
      × (path_of sent ≡ path)
      × (bad_path path ≡ false)
unfolding post_pve
post_pve-IsGranted find_peer token host_id method path extra query body shares sent h =
    let (peer, known, rest) =
      bind_ok (require_federation_peer find_peer token)
        (λ peer. assert_shared_host peer host_id method path extra shares >>= λ host.
          proxy_pve_request host method path query body)
        sent h in
    let (host, asserted, proxied) =
      bind_ok (assert_shared_host peer host_id method path extra shares)
        (λ host. proxy_pve_request host method path query body) sent rest in
    let (text, given, found, panel) = panel_ok find_peer token peer known in
    let (share, for_host, at, granted) =
      assert_shared_host_ok peer host_id method path extra shares host asserted in
    let (sent_to, sent_path, good) = proxy_ok host method path query body sent proxied in
    (text, peer, share, given, found, panel, for_host, granted, sent_to ∙ sym at, sent_path, good)

refused-share_allows :
    (level : ShareLevel) (method path : Codes) (extra : Extra)
    → federation_permission method path extra ≡ none
    → share_allows level (federation_action_level method path extra) ≡ false
unfolding federation_action_level share_allows
refused-share_allows level method path extra denied = rw denied refl

by_level :
    (level : ShareLevel) (needed : List Permission)
    → share_has_permission level none needed ≡ share_has_permission level (some []) needed
unfolding share_has_permission effective_share_permissions
by_level level needed = refl

-- Of a share with no permissions of its own, what it lets through is what its level reaches: a call is
-- granted exactly if the level of the call is one that the level of the share allows.
pub IsGranted-share_allows :
    (share : HostShare) (method path : Codes) (extra : Extra)
    → share.permissions ≡ []
    → IsGranted share method path extra
      ↔ (share_allows share.level (federation_action_level method path extra) ≡ true)
unfolding IsGranted
IsGranted-share_allows share method path extra none_own = (
  λ (needed, same, has).
      sym (federation_action_level-agrees method path extra share.level needed same)
      ∙ by_level share.level needed
      ∙ subst (λ p. share_has_permission share.level (some p) needed ≡ true) none_own has,
  λ allows. elim (Option-cases (federation_permission method path extra)) [
    | inl denied ↦ cc (allows, refused-share_allows share.level method path extra denied)
    | inr (needed, same) ↦ (
      needed,
      same,
      subst (λ p. share_has_permission share.level (some p) needed ≡ true) (sym none_own)
          (sym (by_level share.level needed)
            ∙ federation_action_level-agrees method path extra share.level needed same
            ∙ allows),
    )
  ],
)
