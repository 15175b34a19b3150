-- ===== src/Control/Relay.antt =====
-- internal/relay/relay.go: the relay between peers of a tenant. A `*session` is a number, under
-- which the heap holds the session, so that the four maps share what they point to.
pub mod Arrivals
pub mod Current
pub mod Delivery
pub mod Grants
pub mod Isolation
pub mod Latest
pub mod Moves
pub mod Places
pub mod Reach
pub mod Replaced
pub mod Stays
use mesh2mesh.Base.{
  length, take, drop, Text, text_eq, ltb, leb, ◌==◌, if◌then◌else◌, ℕ, ◌+◌, ◌-◌, Bool, false, not,
  ◌&&◌, ◌||◌, Option, none, some, List, [], ◌∷◌, ◌++◌,
}
use mesh2mesh.Control.Netip.{
  Addr, no_addr, v4, AddrPort, addr_eq, addr_port_eq, no_addr_port, is_valid, is_4, to_bytes,
  of_bytes,
}
use mesh2mesh.Control.Wire.{
  type_relay_register, type_relay_ack, type_relay_data, relay_token_len, header_len,
  relay_header_len, encode, Decoded, decoded, malformed, decode,
}

pub record RelaySession : Type 0 where
  pub peer_id : Text
  pub tenant_id : Text
  pub mesh_ip : Addr
  pub token : List ℕ
  pub addr : AddrPort
  pub last_seen : ℕ

-- A Go map: the absent key gives nothing.
abbrev pub update : {K V : Type 0} → (K → K → Bool) → K → Option V → (K → Option V) → K → Option V
update eq k v m j = if eq k j then v else m j

abbrev pub MeshKey : Type 0
MeshKey = Text × Addr

abbrev pub mesh_eq : MeshKey → MeshKey → Bool
mesh_eq (t, ip) (u, jp) = text_eq t u && addr_eq ip jp

-- The times are in milliseconds. `fresh` is the next pointer.
pub record Relay : Type 0 where
  pub heap : ℕ → RelaySession
  pub fresh : ℕ
  pub by_peer : Text → Option ℕ
  pub by_token : List ℕ → Option ℕ
  pub by_addr : AddrPort → Option ℕ
  pub by_mesh : MeshKey → Option ℕ

abbrev pub session_ttl : ℕ
session_ttl = 90000

abbrev no_session : RelaySession
no_session = record {
  peer_id = [];
  tenant_id = [];
  mesh_ip = no_addr;
  token = [];
  addr = no_addr_port;
  last_seen = 0;
}

-- `New`
abbrev pub new_relay : Relay
new_relay = record {
  heap = λ s. no_session;
  fresh = 0;
  by_peer = λ k. none;
  by_token = λ k. none;
  by_addr = λ k. none;
  by_mesh = λ k. none;
}

-- `r.m[k] == s`
abbrev pub points_to : Option ℕ → ℕ → Bool
points_to none s = false
points_to (some t) s = t == s

-- A write through a pointer.
abbrev write : ℕ → RelaySession → (ℕ → RelaySession) → ℕ → RelaySession
write s v heap t = if s == t then v else heap t

-- `if r.m[k] == s { delete(r.m, k) }`
abbrev pub delete_if : {K : Type 0} → (K → K → Bool) → K → ℕ → (K → Option ℕ) → K → Option ℕ
delete_if eq k s m = if points_to (m k) s then update eq k none m else m

-- `forget(s)`
unfoldable pub forget : ℕ → Relay → Relay
forget s r =
    let v = r.heap s in
    record r {
      by_token = update text_eq v.token none r.by_token;
      by_peer = delete_if text_eq v.peer_id s r.by_peer;
      by_addr = delete_if addr_port_eq v.addr s r.by_addr;
      by_mesh = delete_if mesh_eq (v.tenant_id, v.mesh_ip) s r.by_mesh;
    }

abbrev pub forget_old : Option ℕ → Relay → Relay
forget_old none r = r
forget_old (some s) r = forget s r

abbrev pub new_session : Text → Text → Addr → List ℕ → RelaySession
new_session peer tenant ip token = record {
  peer_id = peer;
  tenant_id = tenant;
  mesh_ip = ip;
  token = token;
  addr = no_addr_port;
  last_seen = 0;
}

abbrev pub enter : RelaySession → Relay → Relay
enter v r = record r {
  heap = write r.fresh v r.heap;
  fresh = r.fresh + 1;
  by_peer = update text_eq v.peer_id (some r.fresh) r.by_peer;
  by_token = update text_eq v.token (some r.fresh) r.by_token;
  by_mesh = update mesh_eq (v.tenant_id, v.mesh_ip) (some r.fresh) r.by_mesh;
}

-- `Issue(peerID, tenantID, meshIP)` with the token that it draws; an error for IPv6.
unfoldable pub issue : Text → Text → Addr → (token : List ℕ) → Relay → Option (List ℕ) × Relay
unfolding forget
issue peer tenant ip token r =
    if is_4 ip
    then (some token, enter (new_session peer tenant ip token) (forget_old (r.by_peer peer) r))
    else (none, r)

-- `live(s, now)`
abbrev pub live : Relay → Option ℕ → ℕ → Bool
live r none now = false
live r (some s) now = is_valid (r.heap s).addr && ltb (now - (r.heap s).last_seen) session_ttl

-- A datagram that the socket sends.
pub record Datagram : Type 0 where
  pub frame : List ℕ
  pub to : AddrPort

-- `prev.addr = netip.AddrPort{}`
abbrev pub unplace : Option ℕ → (ℕ → RelaySession) → ℕ → RelaySession
unplace none heap = heap
unplace (some p) heap = write p (record (heap p) { addr = no_addr_port }) heap

-- The branch `if moved`.
abbrev pub move : ℕ → AddrPort → Relay → Relay
move s src r =
    let heap = unplace (delete_if addr_port_eq (r.heap s).addr s r.by_addr src) r.heap in
    record r {
      heap = write s (record (heap s) { addr = src }) heap;
      by_addr =
          update addr_port_eq src (some s) (delete_if addr_port_eq (r.heap s).addr s r.by_addr);
    }

abbrev pub see : ℕ → ℕ → Relay → Relay
see s now r = record r { heap = write s (record (r.heap s) { last_seen = now }) r.heap }

abbrev pub place : ℕ → AddrPort → Relay → Relay
place s src r = if addr_port_eq (r.heap s).addr src then r else move s src r

abbrev pub registered : Option ℕ → List ℕ → AddrPort → ℕ → Relay → List Datagram × Relay
registered none token src now r = ([], r)
registered (some s) token src now r =
    (record { frame = encode [] type_relay_ack token; to = src } ∷ [], see s now (place s src r))

-- `register(c, payload, src)`
unfoldable pub register : List ℕ → AddrPort → (now : ℕ) → Relay → List Datagram × Relay
register payload src now r =
    if ltb (length payload) relay_token_len
    then ([], r)
    else registered (r.by_token (take relay_token_len payload)) (take relay_token_len payload) src
        now r

-- `As4`, and `AddrFrom4` of four bytes
abbrev pub as_4 : Addr → List ℕ
as_4 (v4 n) = to_bytes 4 n
as_4 _ = []

-- `copy(ipField, srcIP[:])`: the frame with another address after its header.
abbrev pub with_ip : List ℕ → List ℕ → List ℕ
with_ip ip frame = take header_len frame ++ (ip ++ drop relay_header_len frame)

abbrev pub destination : List ℕ → Addr
destination frame = v4 (of_bytes (take 4 (drop header_len frame)))

abbrev pub pass_on : ℕ → Option ℕ → List ℕ → Relay → List Datagram
pass_on from none frame r = []
pass_on from (some to) frame r =
    record { frame = with_ip (as_4 (r.heap from).mesh_ip) frame; to = (r.heap to).addr } ∷ []

abbrev pub forward_from : Option ℕ → List ℕ → (now : ℕ) → Relay → List Datagram × Relay
forward_from none frame now r = ([], r)
forward_from (some from) frame now r =
    let r' = see from now r in
    let to = r'.by_mesh ((r'.heap from).tenant_id, destination frame) in
    if points_to to from || not (live r' to now) then ([], r') else (pass_on from to frame r', r')

-- `forward(c, frame, src)`
unfoldable pub forward : List ℕ → AddrPort → (now : ℕ) → Relay → List Datagram × Relay
forward frame src now r =
    if leb (length frame) relay_header_len
    then ([], r)
    else if not (live r (r.by_addr src) now)
    then ([], r)
    else forward_from (r.by_addr src) frame now r

abbrev pub handle_decoded : Decoded → List ℕ → AddrPort → ℕ → Relay → List Datagram × Relay
handle_decoded (malformed e) frame src now r = ([], r)
handle_decoded (decoded type payload) frame src now r =
    if type == type_relay_register
    then register payload src now r
    else if type == type_relay_data
    then forward frame src now r
    else ([], r)

-- `HandleFrame(c, frame, src)`
unfoldable pub handle_frame : List ℕ → AddrPort → (now : ℕ) → Relay → List Datagram × Relay
unfolding decode register forward
handle_frame frame src now r = handle_decoded (decode frame) frame src now r
