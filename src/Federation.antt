-- ===== src/Federation.antt =====
-- server/services/federation-service.ts, requireFederationPeer to proxyPveRequest, and the route
-- app/api/federation/pve/[hostId]/route.ts: what a peer may reach on a host that is shared with it. `B` is the type of bodies.
pub mod Forward
mod Tests
use proxora.Common.{
  String, List, [], ◌∷◌, Bool, true, false, not, Option, none, some, codes_eq, string_eq, Codes,
  codes, starts_with, contains, upper, ◌&&◌, ◌||◌, ◌==◌, if◌then◌else◌,
}
use proxora.Errors.{
  AppError, Result, ok, err, ◌>>=◌, unauthorized, forbidden, not_found, validation,
}
use proxora.Kind.{Kind}
use proxora.Rbac.Catalog.{Permission}
use proxora.Rbac.Guests.{guest_file_permission, FileAccess}
use proxora.Database.{find_first}
use proxora.Share.{ShareLevel, share_has_permission}
use proxora.Share.Request.{Extra, federation_permission}

pub data PeerKind : Type 0 where
  proxora_panel gateway : PeerKind

pub record Peer : Type 0 where
  pub id : String
  pub kind : PeerKind

pub record Host : Type 0 where
  pub id : String
  pub is_local : Bool

-- A row of HostShare with its host. The list of permissions is empty if the level alone counts.
pub record HostShare : Type 0 where
  pub peer_id : String
  pub host_id : String
  pub level : ShareLevel
  pub permissions : List String
  pub host : Host

abbrev pub panel_peer : Peer → PeerKind → Result Peer
panel_peer peer PeerKind.proxora_panel = ok peer
panel_peer peer PeerKind.gateway = err unauthorized

abbrev pub known_peer : Option Peer → Result Peer
known_peer none = err unauthorized
known_peer (some peer) = panel_peer peer peer.kind

-- `token` is the one of the header, and `find_peer` the search for the peer of a token.
unfoldable pub require_federation_peer :
    (find_peer : String → Option Peer) → (token : Option String) → Result Peer
require_federation_peer find_peer none = err unauthorized
require_federation_peer find_peer (some token) =
    if token == "" then err unauthorized else known_peer (find_peer token)

unfoldable pub find_share : Peer → (host_id : String) → List HostShare → Option HostShare
find_share peer host_id shares =
    find_first (λ (s : HostShare). s.peer_id == peer.id && s.host_id == host_id) shares

abbrev pub local_share : Option HostShare → Result HostShare
local_share none = err (not_found "Host not shared")
local_share (some share) =
    if share.host.is_local then ok share else err (not_found "Host not shared")

-- `none` is `"deny"`.
abbrev pub granted_host : HostShare → Option (List Permission) → Result Host
granted_host share none = err (forbidden "This host is not shared at that level")
granted_host share (some needed) =
    if share_has_permission share.level (some share.permissions) needed
    then ok share.host
    else err (forbidden "This host is not shared at that level")

unfoldable pub assert_shared_host :
    Peer → (host_id : String) → (method path : Codes) → Extra → List HostShare → Result Host
assert_shared_host peer host_id method path extra shares =
    local_share (find_share peer host_id shares) >>= λ share.
    granted_host share (federation_permission method path extra)

unfoldable pub require_shared_guest_files :
    Peer → (host_id : String) → Kind → List HostShare → Result Host
require_shared_guest_files peer host_id kind shares =
    local_share (find_share peer host_id shares) >>= λ share. granted_host share (
      some (
        guest_file_permission kind FileAccess.read
        ∷ guest_file_permission kind FileAccess.write
        ∷ []))

-- A call of the client of a host.
pub data Sent (Q B : Type 0) : Type 0 where
  get : Host → (path : Codes) → Q → Sent Q B
  post : Host → (path : Codes) → B → Q → Sent Q B
  put : Host → (path : Codes) → B → Q → Sent Q B
  delete : Host → (path : Codes) → Q → Sent Q B

-- The text of the last error has the method too, which is left out here. `path` has `..` in it or does not begin with a slash.
unfoldable pub bad_path : Codes → Bool
bad_path path = not (starts_with (codes "/") path) || contains (codes "..") path

unfoldable pub proxy_pve_request :
    {Q B : Type 0} → Host → (method path : Codes) → Q → B → Result (Sent Q B)
proxy_pve_request host method path query body =
    let verb = upper method in
    if bad_path path
    then err (validation "Invalid Proxmox path")
    else if verb == codes "GET"
    then ok (get host path query)
    else if verb == codes "POST"
    then ok (post host path body query)
    else if verb == codes "PUT"
    then ok (put host path body query)
    else if verb == codes "DELETE"
    then ok (delete host path query)
    else err (validation "Unsupported method")

-- The route: the peer of the token, the share, and the call. `extra` is what is read of query and body.
unfoldable pub post_pve :
    {Q B : Type 0}
    → (find_peer : String → Option Peer) → (token : Option String) → (host_id : String)
    → (method path : Codes) → Extra
    → Q
    → B
    → List HostShare
    → Result (Sent Q B)
post_pve find_peer token host_id method path extra query body shares =
    require_federation_peer find_peer token >>= λ peer.
    assert_shared_host peer host_id method path extra shares >>= λ host.
    proxy_pve_request host method path query body
