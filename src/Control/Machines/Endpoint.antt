-- ===== src/Control/Machines/Endpoint.antt =====
-- internal/api/peers.go: the routes by which a machine reports its endpoint, and gets a token of the
-- relay.
use mesh2mesh.Base.{Text, lit, if◌then◌else◌, ℕ, ◌⊎◌, inl, inr, Bool, not, Option, none, some, List}
use mesh2mesh.Control.Machines.{
  MachineReply, peer_view, relay_view, failed, invalid_body, unless_missing, remote_addr,
}
use mesh2mesh.Control.Netip.{Addr, AddrPort}
use mesh2mesh.Control.Registry.{
  Registry, Peer, Saved, saved, rejected, get_peer, is_port, set_peer_endpoint,
}
use mesh2mesh.Control.Relay.{Relay, issue}

module _ (parse_endpoint : Text → Option AddrPort) where
  -- `updateEndpoint`, up to where it probes: the endpoint, or the answer
  abbrev probe_target : Option Addr → ℕ → AddrPort ⊎ MachineReply
  probe_target none port = inr (failed 500 (lit "could not read the request source address"))
  probe_target (some ip) port = inl (record { ip = ip; port = port })

  abbrev known_peer : Saved Peer → AddrPort ⊎ MachineReply → AddrPort ⊎ MachineReply
  known_peer (saved p) next_step = next_step
  known_peer (rejected e) next_step =
      inr (unless_missing e (lit "no such peer") (lit "could not load peer"))

  unfoldable pub ask_endpoint :
      (id : Text) (udp_port : Option ℕ) (remote : Text) → Registry → AddrPort ⊎ MachineReply
  ask_endpoint id none remote r = inr invalid_body
  ask_endpoint id (some port) remote r =
      if not (is_port port)
      then inr (failed 400 (lit "udp_port must be between 1 and 65535"))
      else known_peer (get_peer id r) (probe_target (remote_addr parse_endpoint remote) port)

-- `updateEndpoint`, with what the probe found; without a prober, that is that nothing answers.
abbrev endpoint_reply : Option ℕ → Saved Peer → MachineReply
endpoint_reply probe_port (saved p) = peer_view probe_port p
endpoint_reply probe_port (rejected e) = failed 500 (lit "could not save endpoint")

unfoldable pub save_endpoint :
    (id : Text)
    → AddrPort
    → (reachable : Bool) → (now : ℕ) (probe_port : Option ℕ) → Registry
    → MachineReply × Registry
unfolding set_peer_endpoint
save_endpoint id endpoint reachable now probe_port r =
    let (o, r') = set_peer_endpoint id endpoint reachable now r in (endpoint_reply probe_port o, r')

-- `issueRelayToken`, with the port of the prober and the relay where there are such
abbrev issued_view : Option (List ℕ) → ℕ → MachineReply
issued_view none port = failed 500 (lit "could not issue a relay token")
issued_view (some token) port = relay_view token port

abbrev issue_for : Saved Peer → (token : List ℕ) → ℕ → Relay → MachineReply × Relay
issue_for (rejected e) token port relay =
    (unless_missing e (lit "no such peer") (lit "could not load peer"), relay)
issue_for (saved p) token port relay =
    let (o, relay') = issue p.id p.tenant_id p.mesh_ip token relay in (issued_view o port, relay')

abbrev issue_with :
    Text → (token : List ℕ) → Option ℕ → Option Relay → Registry → MachineReply × Option Relay
issue_with id token (some port) (some relay) r =
    let (reply, relay') = issue_for (get_peer id r) token port relay in (reply, some relay')
issue_with id token port relay r = (failed 503 (lit "this control plane does not relay"), relay)

unfoldable pub issue_relay_token :
    (id : Text) (token : List ℕ)
    → (port : Option ℕ) → Option Relay
    → Registry
    → MachineReply × Option Relay
unfolding issue
issue_relay_token id token port relay r = issue_with id token port relay r
