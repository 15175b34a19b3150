-- ===== src/Control/Registry.antt =====
-- internal/store/store.go: the enrollment tokens and the machines, over the tables of
-- migrations/0001_init.sql, 0002_peers_vpn_infos.sql and 0003_peers_nat_endpoint.sql. A query runs as one
-- step, a transaction too; ids, times and secrets that are drawn are arguments.
pub mod Enroll
pub mod Rows
pub mod Ranges
pub mod Enrollment
pub mod Steps
use mesh2mesh.Base.{
  any, keep, find, Text, text_eq, ltb, if◌then◌else◌, ◌or◌, ℕ, ◌%◌, Bool, not, ◌&&◌, Option, none,
  some, List, [], ◌∷◌, ◌++◌, map,
}
use mesh2mesh.Control.Netip.{Addr, no_addr, AddrPort, addr_eq, no_addr_port}
use mesh2mesh.Control.Store.{TenantRow, Database, has_id}

-- A row of `enrollment_tokens`
pub record TokenRow : Type 0 where
  pub id : Text
  pub tenant_id : Text
  pub token_hash : List ℕ
  pub max_uses : ℕ
  pub uses : ℕ
  pub expires_at : ℕ
  pub revoked_at : Option ℕ

-- A row of `peers`
pub record PeerRow : Type 0 where
  pub id : Text
  pub tenant_id : Text
  pub name : Text
  pub public_key : Text
  pub mesh_ip : Addr
  pub token_id : Text
  pub created_at : ℕ
  pub public_ip : Option Addr
  pub udp_port : Option ℕ
  pub endpoint_updated_at : Option ℕ
  pub direct_reachable : Bool
  pub nat_ip : Option Addr
  pub nat_port : Option ℕ

-- The tables of the database, those of internal/store/members.go under `db`
pub record Registry : Type 0 where
  pub db : Database
  pub enrollment_tokens : List TokenRow
  pub peers : List PeerRow

-- `Peer`
pub record Peer : Type 0 where
  pub id : Text
  pub tenant_id : Text
  pub name : Text
  pub public_key : Text
  pub mesh_ip : Addr
  pub created_at : ℕ
  pub endpoint : AddrPort
  pub direct_reachable : Bool
  pub endpoint_updated_at : ℕ
  pub nat_endpoint : AddrPort

-- `ErrTokenInvalid`, `ErrConflict`, `ErrPoolExhausted`, `ErrNotFound`, an error that `wrap` passes
-- on, and a search for an address that used up its fuel
pub data PeerError : Type 0 where
  token_invalid key_conflict exhausted no_row violation stalled : PeerError

pub data Saved (A : Type 0) : Type 0 where
  saved : A → Saved A
  rejected : PeerError → Saved A

-- `AddrPortFrom` of two columns, which is the zero value unless both are set
abbrev addr_port_of : Option Addr → Option ℕ → AddrPort
addr_port_of (some ip) (some port) = record { ip = ip; port = port % 65536 }
addr_port_of _ _ = no_addr_port

-- `scanPeer`
abbrev pub scan_peer : PeerRow → Peer
scan_peer p = record {
  id = p.id;
  tenant_id = p.tenant_id;
  name = p.name;
  public_key = p.public_key;
  mesh_ip = p.mesh_ip;
  created_at = p.created_at;
  endpoint = addr_port_of p.public_ip p.udp_port;
  direct_reachable = p.direct_reachable;
  endpoint_updated_at = p.endpoint_updated_at or 0;
  nat_endpoint = addr_port_of p.nat_ip p.nat_port;
}

-- The conditions of the queries
abbrev pub is_peer : Text → PeerRow → Bool
is_peer id p = text_eq p.id id

abbrev registered_in : Text → PeerRow → Bool
registered_in tenant_id p = text_eq p.tenant_id tenant_id

abbrev pub has_mesh_ip : Text → Addr → PeerRow → Bool
has_mesh_ip tenant_id ip p = text_eq p.tenant_id tenant_id && addr_eq p.mesh_ip ip

abbrev pub has_key : Text → Text → PeerRow → Bool
has_key tenant_id key p = text_eq p.tenant_id tenant_id && text_eq p.public_key key

abbrev found : {A : Type 0} → Option A → Saved A
found none = rejected no_row
found (some a) = saved a

-- `GetTenant(id)`
abbrev pub get_tenant : Text → Registry → Saved TenantRow
get_tenant id r = found (find (has_id id) r.db.tenants)

-- `GetPeer(id)`
abbrev pub get_peer : Text → Registry → Saved Peer
get_peer id r = found (scanned (find (is_peer id) r.peers))
  where
    scanned : Option PeerRow → Option Peer
    scanned none = none
    scanned (some p) = some (scan_peer p)

-- `ListPeers(tenantID)`, oldest first, where the rows stand newest first
abbrev pub list_peers : Text → Registry → List Peer
list_peers tenant_id r = oldest_first (keep (registered_in tenant_id) r.peers)
  where
    oldest_first : List PeerRow → List Peer
    oldest_first [] = []
    oldest_first (p ∷ ps) = oldest_first ps ++ scan_peer p ∷ []

-- An address as an `inet`: the zero `Addr` is NULL.
abbrev pub inet : Addr → Option Addr
inet no_addr = none
inet a = some a

-- `CHECK (port > 0 AND port < 65536)`
abbrev pub is_port : ℕ → Bool
is_port n = ltb 0 n && ltb n 65536

abbrev update_peer : Text → (PeerRow → PeerRow) → Registry → Registry
update_peer id change r = record r {
  peers = map (λ p. if is_peer id p then change p else p) r.peers;
}

-- The updates of `SetPeerEndpoint` and `SetPeerNATEndpoint`
abbrev pub with_endpoint : AddrPort → Bool → ℕ → PeerRow → PeerRow
with_endpoint endpoint reachable now p = record p {
  public_ip = inet endpoint.ip;
  udp_port = some endpoint.port;
  direct_reachable = reachable;
  endpoint_updated_at = some now;
}

abbrev pub with_nat_endpoint : AddrPort → PeerRow → PeerRow
with_nat_endpoint endpoint p = record p { nat_ip = inet endpoint.ip; nat_port = some endpoint.port }

abbrev pub change_peer : Text → ℕ → (PeerRow → PeerRow) → Registry → Saved Peer × Registry
change_peer id port change r =
    if not (any (is_peer id) r.peers)
    then (rejected no_row, r)
    else if not (is_port port)
    then (rejected violation, r)
    else (get_peer id (update_peer id change r), update_peer id change r)

-- `SetPeerEndpoint(peerID, endpoint, reachable)`
unfoldable pub set_peer_endpoint :
    Text → AddrPort → (reachable : Bool) → (now : ℕ) → Registry → Saved Peer × Registry
set_peer_endpoint id endpoint reachable now r =
    change_peer id endpoint.port (with_endpoint endpoint reachable now) r

-- `SetPeerNATEndpoint(peerID, endpoint)`
unfoldable pub set_peer_nat_endpoint : Text → AddrPort → Registry → Saved Peer × Registry
set_peer_nat_endpoint id endpoint r = change_peer id endpoint.port (with_nat_endpoint endpoint) r
