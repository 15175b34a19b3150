-- ===== src/Control/Machines.antt =====
-- internal/api/tenants.go, internal/api/tokens.go and internal/api/peers.go: the routes of
-- machines. The requests are what http.ServeMux makes of them; the numbers of a body are words of
-- 64 bits.
pub mod Endpoint
pub mod Keeps
pub mod Source
use mesh2mesh.Base.{
  null, Text, lit, text_eq, ltb, ◌==◌, if◌then◌else◌, ℕ, ◌+◌, ◌*◌, ◌%◌, ◌⊎◌, inl, inr, Bool, false,
  not, ◌&&◌, ◌||◌, Option, none, some, List, ◌++◌,
}
use mesh2mesh.Control.Access.{word, TenantBody, Draws, cut_prefix, is_positive, second, parse_cidr}
use mesh2mesh.Control.Addr.{Prefix}
use mesh2mesh.Control.Netip.{Addr, AddrPort, addr_eq, unmap}
use mesh2mesh.Control.Registry.{
  TokenRow, Registry, Peer, PeerError, token_invalid, key_conflict, exhausted, no_row, Saved, saved,
  rejected, get_tenant, list_peers, set_peer_nat_endpoint,
}
use mesh2mesh.Control.Registry.Enroll.{create_token, register_peer}
use mesh2mesh.Control.Store.{TenantRow, create_tenant}

pub record TokenBody : Type 0 where
  pub ttl_seconds : ℕ
  pub max_uses : ℕ

pub record RegisterBody : Type 0 where
  pub token : Text
  pub name : Text
  pub public_key : Text

-- What `decode` makes of a body, all zero when it is empty: `none` where it answers itself, with the
-- decoder's message, which is left out here. The routes of `updateEndpoint` and `issueRelayToken` are in
-- Machines/Endpoint.
pub data MachineRoute : Type 0 where
  post_tenant : (body : Option TenantBody) → MachineRoute
  list_tenants : (authorization : Text) → MachineRoute
  show_tenant : (authorization id : Text) → MachineRoute
  post_token : (id : Text) (body : Option TokenBody) → MachineRoute
  show_peers : (id : Text) → MachineRoute
  post_peer : (body : Option RegisterBody) → MachineRoute
  post_nat_endpoint : (id : Text) (endpoint : Option Text) → MachineRoute

-- `writeJSON` and `fail`
pub data MachineReply : Type 0 where
  tenant_view : (status : ℕ) → TenantRow → MachineReply
  tenants_view : List TenantRow → MachineReply
  token_view : (secret : Text) → TokenRow → MachineReply
  enrolled_view : Peer → TenantRow → MachineReply
  peers_view : List Peer → MachineReply
  peer_view : (probe_port : Option ℕ) → Peer → MachineReply
  relay_view : (token : List ℕ) (relay_port : ℕ) → MachineReply
  failed : (status : ℕ) (message : Text) → MachineReply

abbrev pub invalid_body : MachineReply
invalid_body = failed 400 (lit "invalid JSON body")

abbrev default_token_ttl : ℕ
default_token_ttl = 3600 * 1000000000

abbrev pub max_token_ttl : ℕ
max_token_ttl = 2592000 * 1000000000

abbrev pub max_token_uses : ℕ
max_token_uses = 1000

abbrev pub token_ttl : TokenBody → ℕ
token_ttl b = if b.ttl_seconds == 0 then default_token_ttl else b.ttl_seconds * second % word

abbrev pub token_uses : TokenBody → ℕ
token_uses b = if b.max_uses == 0 then 1 else b.max_uses

-- `errors.Is(err, store.ErrNotFound)`, or another error
abbrev pub unless_missing : PeerError → (missing other : Text) → MachineReply
unless_missing no_row missing other = failed 404 missing
unless_missing e missing other = failed 500 other

abbrev shown_tenant : Saved TenantRow → MachineReply
shown_tenant (saved t) = tenant_view 200 t
shown_tenant (rejected e) = unless_missing e (lit "no such tenant") (lit "could not load tenant")

abbrev shown_peers : Saved TenantRow → List Peer → MachineReply
shown_peers (saved t) peers = peers_view peers
shown_peers (rejected e) peers =
    unless_missing e (lit "no such tenant") (lit "could not load tenant")

abbrev enrollment_reply : Saved (Peer × TenantRow) → MachineReply
enrollment_reply (saved (peer, tenant)) = enrolled_view peer tenant
enrollment_reply (rejected token_invalid) =
    failed 401 (lit "enrollment token is invalid, expired or already used")
enrollment_reply (rejected key_conflict) =
    failed 409 (lit "that public key is already registered in this tenant")
enrollment_reply (rejected exhausted) = failed 409 (lit "the tenant address pool is exhausted")
enrollment_reply (rejected e) = failed 500 (lit "could not register peer")

abbrev nat_reply : Saved Peer → MachineReply
nat_reply (saved p) = peer_view none p
nat_reply (rejected e) = unless_missing e (lit "no such peer") (lit "could not save nat endpoint")

abbrev token_reply : Text → Saved TokenRow → MachineReply
token_reply secret (saved t) = token_view secret t
token_reply secret (rejected e) = failed 500 (lit "could not create token")

-- `remoteAddr(r)`, with `netip.ParseAddrPort`
abbrev pub remote_addr : (parse_endpoint : Text → Option AddrPort) → (remote : Text) → Option Addr
remote_addr parse_endpoint remote = address (parse_endpoint remote)
  where
    address : Option AddrPort → Option Addr
    address none = none
    address (some a) = some (unmap a.ip)

-- The token of the server, and what Go's library does: `strings.TrimSpace`, SHA-256,
-- `netip.ParsePrefix`, `netip.ParseAddrPort` and `Addr.String`.
module _ (web_token : Text) (trim_space : Text → Text) (hash : Text → List ℕ)
    (parse_prefix : Text → Prefix ⊎ Text) (parse_endpoint : Text → Option AddrPort)
    (show_addr : Addr → Text) where
  -- `webOnly(h)`
  abbrev closed_to : Text → Bool
  closed_to authorization =
      not (null web_token) && not (bears (cut_prefix authorization (lit "Bearer ")))
    where
      bears : Option Text → Bool
      bears none = false
      bears (some got) = text_eq got web_token

  abbrev web_only : Text → MachineReply → MachineReply
  web_only authorization reply =
      if closed_to authorization
      then failed 401 (lit "this route needs the web UI's token")
      else reply

  -- `createTenant`
  abbrev pub new_tenant : Text → Prefix ⊎ Text → Draws → Registry → MachineReply × Registry
  new_tenant name (inr message) d r = (failed 400 message, r)
  new_tenant name (inl cidr) d r =
      let (t, db) = create_tenant d.id d.now name cidr r.db in
      (tenant_view 201 t, record r { db = db })

  -- `createToken`
  abbrev pub new_token :
      Text → TokenBody → Saved TenantRow → Draws → Registry → MachineReply × Registry
  new_token id b (rejected e) d r =
      (unless_missing e (lit "no such tenant") (lit "could not load tenant"), r)
  new_token id b (saved t) d r =
      let (o, r') = create_token hash d.id d.code id (d.now + token_ttl b) (token_uses b) r in
      (token_reply d.code o, r')

  abbrev pub post_token_body : Text → TokenBody → Draws → Registry → MachineReply × Registry
  post_token_body id b d r =
      if not (is_positive (token_ttl b)) || ltb max_token_ttl (token_ttl b)
      then (failed 400 (lit "ttl_seconds must be between 1 and 2592000"), r)
      else if not (is_positive (token_uses b)) || ltb max_token_uses (token_uses b)
      then (failed 400 (lit "max_uses must be between 1 and 1000"), r)
      else new_token id b (get_tenant id r) d r

  -- `registerPeer`
  abbrev pub post_peer_body : RegisterBody → Draws → Registry → MachineReply × Registry
  post_peer_body b d r =
      let token = trim_space b.token in
      let name = trim_space b.name in
      let key = trim_space b.public_key in
      if null token
      then (failed 400 (lit "token is required"), r)
      else if null name
      then (failed 400 (lit "name is required"), r)
      else if null key
      then (failed 400 (lit "public_key is required"), r)
      else let (o, r') = register_peer hash d.id d.now token name key r in (enrollment_reply o, r')

  -- `updateNATEndpoint`
  abbrev pub from_source : Text → AddrPort → Option Addr → Registry → MachineReply × Registry
  from_source id endpoint none r = (failed 500 (lit "could not read the request source address"), r)
  from_source id endpoint (some ip) r =
      if not (addr_eq endpoint.ip ip)
      then (failed 400 (lit "endpoint address is not the request source " ++ show_addr ip), r)
      else let (o, r') = set_peer_nat_endpoint id endpoint r in (nat_reply o, r')

  abbrev pub post_nat :
      Text → Option AddrPort → (remote : Text) → Registry → MachineReply × Registry
  post_nat id none remote r = (failed 400 (lit "endpoint must be ip:port"), r)
  post_nat id (some a) remote r =
      if a.port == 0
      then (failed 400 (lit "endpoint must be ip:port"), r)
      else from_source id (record { ip = unmap a.ip; port = a.port })
          (remote_addr parse_endpoint remote) r

  -- The handlers
  unfoldable pub serve_machine :
      MachineRoute → (remote : Text) → Draws → Registry → MachineReply × Registry
  unfolding parse_cidr create_tenant create_token register_peer set_peer_nat_endpoint
  serve_machine (post_tenant none) remote d r = (invalid_body, r)
  serve_machine (post_tenant (some b)) remote d r =
      if null (trim_space b.name)
      then (failed 400 (lit "name is required"), r)
      else new_tenant (trim_space b.name) (parse_cidr trim_space parse_prefix b.cidr) d r
  serve_machine (list_tenants authorization) remote d r =
      (web_only authorization (tenants_view r.db.tenants), r)
  serve_machine (show_tenant authorization id) remote d r =
      (web_only authorization (shown_tenant (get_tenant id r)), r)
  serve_machine (post_token id none) remote d r = (invalid_body, r)
  serve_machine (post_token id (some b)) remote d r = post_token_body id b d r
  serve_machine (show_peers id) remote d r = (shown_peers (get_tenant id r) (list_peers id r), r)
  serve_machine (post_peer none) remote d r = (invalid_body, r)
  serve_machine (post_peer (some b)) remote d r = post_peer_body b d r
  serve_machine (post_nat_endpoint id none) remote d r = (invalid_body, r)
  serve_machine (post_nat_endpoint id (some endpoint)) remote d r =
      post_nat id (parse_endpoint (trim_space endpoint)) remote r
