-- ===== src/Control/Plane.antt =====
-- cmd/controlplane/main.go and internal/api/peers.go: the tables, the prober and its relay together,
-- with the requests that wait for a probe.
pub mod Reach
pub mod Steps
pub mod Relayed
pub mod Preserved
pub mod Invariant
pub mod Passing
pub mod Tests
use mesh2mesh.Base.{Text, ◌==◌, ℕ, ◌⊎◌, inl, inr, Option, none, some, List, []}
use mesh2mesh.Control.Access.{MeRequest, MeRoute, Reply, Draws, as_user}
use mesh2mesh.Control.Addr.{Prefix}
use mesh2mesh.Control.Machines.{MachineRoute, MachineReply, serve_machine}
use mesh2mesh.Control.Machines.Endpoint.{ask_endpoint, save_endpoint, issue_relay_token}
use mesh2mesh.Control.Netip.{Addr, AddrPort}
use mesh2mesh.Control.Prober.{
  Phase, returned, Call, Prober, new_prober, set_relay, begin_call, Signal, step_call, receive,
}
use mesh2mesh.Control.Registry.{Registry}
use mesh2mesh.Control.Relay.{update, new_relay, Datagram}

-- `asked` is the machine of each request that waits for a call of `Reachable`.
pub record Plane : Type 0 where
  pub registry : Registry
  pub prober : Prober
  pub asked : ℕ → Option Text

abbrev empty_registry : Registry
empty_registry = record {
  db = record { tenants = []; tenant_members = []; tenant_invites = [] };
  enrollment_tokens = [];
  peers = [];
}

-- `run`: the prober with a relay, over empty tables
abbrev pub new_plane : Plane
new_plane = record {
  registry = empty_registry;
  prober = set_relay new_relay new_prober;
  asked = λ c. none;
}

-- `updateEndpoint`, which starts a probe or answers
abbrev pub start_probe :
    Text → AddrPort ⊎ MachineReply → (nonce : List ℕ) → Plane → Option MachineReply × Plane
start_probe id (inr reply) nonce plane = (some reply, plane)
start_probe id (inl target) nonce plane = (
  none,
  record plane {
    prober = begin_call target nonce plane.prober;
    asked = update (◌==◌) plane.prober.fresh (some id) plane.asked;
  },
)

-- The rest of `updateEndpoint`, once its call has returned
abbrev pub save_phase :
    ℕ → Text → Call → Phase → (now probe_port : ℕ) → Plane → Option MachineReply × Plane
save_phase c id call (returned reachable is_error) now probe_port plane =
    let (reply, registry) =
      save_endpoint id call.target reachable now (some probe_port) plane.registry in
    (some reply, record plane { registry = registry; asked = update (◌==◌) c none plane.asked })
save_phase c id call phase now probe_port plane = (none, plane)

abbrev pub save_asked :
    ℕ → Option Text → Option Call → (now probe_port : ℕ) → Plane → Option MachineReply × Plane
save_asked c (some id) (some call) now probe_port plane =
    save_phase c id call call.phase now probe_port plane
save_asked c id call now probe_port plane = (none, plane)

pub finish_endpoint : ℕ → (now probe_port : ℕ) → Plane → Option MachineReply × Plane
unfolding save_endpoint
finish_endpoint c now probe_port plane =
    save_asked c (plane.asked c) (plane.prober.calls c) now probe_port plane

-- `issueRelayToken` with the relay that the prober hands its frames to
pub issue_to : (id : Text) (token : List ℕ) (port : ℕ) → Plane → MachineReply × Plane
unfolding issue_relay_token
issue_to id token port plane =
    let (reply, relay) = issue_relay_token id token (some port) plane.prober.relay plane.registry in
    (reply, record plane { prober = record (plane.prober) { relay = relay } })

abbrev pub plane_step : ℕ → Signal → Plane → List Datagram × Plane
plane_step c signal plane =
    let (sends, prober) = step_call c signal plane.prober in
    (sends, record plane { prober = prober })

abbrev pub plane_receive : List ℕ → AddrPort → (now : ℕ) → Plane → List Datagram × Plane
plane_receive datagram from now plane =
    let (sends, prober) = receive datagram from now plane.prober in
    (sends, record plane { prober = prober })

module _ (parse_endpoint : Text → Option AddrPort) where
  pub start_endpoint :
      (id : Text) (udp_port : Option ℕ) (remote : Text) (nonce : List ℕ)
      → Plane
      → Option MachineReply × Plane
  unfolding ask_endpoint begin_call
  start_endpoint id udp_port remote nonce plane =
      start_probe id (ask_endpoint parse_endpoint id udp_port remote plane.registry) nonce plane

-- The token of the server, and what Go's library does: `strings.TrimSpace`, `url.QueryUnescape`,
-- SHA-256, `netip.ParsePrefix`, `netip.ParseAddrPort` and `Addr.String`.
module _ (web_token : Text) (trim_space : Text → Text) (query_unescape : Text → Option Text)
    (hash : Text → List ℕ) (parse_prefix : Text → Prefix ⊎ Text)
    (parse_endpoint : Text → Option AddrPort) (show_addr : Addr → Text) where
  pub user_request : MeRequest → MeRoute → Draws → Plane → Reply × Plane
  unfolding as_user
  user_request request route d plane =
      let (reply, db) =
        as_user web_token trim_space query_unescape hash parse_prefix request route d
          plane.registry.db in
      (reply, record plane { registry = record (plane.registry) { db = db } })

  pub machine_request : MachineRoute → (remote : Text) → Draws → Plane → MachineReply × Plane
  unfolding serve_machine
  machine_request route remote d plane =
      let (reply, registry) =
        serve_machine web_token trim_space hash parse_prefix parse_endpoint show_addr route remote d
          plane.registry in
      (reply, record plane { registry = registry })
