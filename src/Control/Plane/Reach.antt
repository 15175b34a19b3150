-- ===== src/Control/Plane/Reach.antt =====
-- What requests, calls and datagrams make of the control plane, in any order.
use mesh2mesh.Base.{
  take, any, All, Text, text_eq, ℕ, ◌≡◌, ◌⊎◌, inl, inr, Bool, true, false, ◌&&◌, Option, some, List,
  [], ◌∷◌, ◌++◌,
}
use mesh2mesh.Control.Access.{MeRequest, MeRoute, Draws}
use mesh2mesh.Control.Addr.{Prefix}
use mesh2mesh.Control.Machines.{MachineRoute, MachineReply}
use mesh2mesh.Control.Machines.Endpoint.{ask_endpoint}
use mesh2mesh.Control.Machines.Keeps.{IsNewId}
use mesh2mesh.Control.Netip.{Addr, AddrPort, addr_eq}
use mesh2mesh.Control.Plane.{
  Plane, new_plane, finish_endpoint, issue_to, plane_step, plane_receive, start_endpoint,
  user_request, machine_request,
}
use mesh2mesh.Control.Prober.{Signal, unmapped}
use mesh2mesh.Control.Prober.Reach.{IsProber}
use mesh2mesh.Control.Prober.Replies.{Happening, called, heard, IsAnswered}
use mesh2mesh.Control.Registry.{PeerRow, Peer, Saved, saved, rejected, get_peer, inet}
use mesh2mesh.Control.Registry.Enrollment.{IsRegistry}
use mesh2mesh.Control.Relay.{issue, handle_frame}
use mesh2mesh.Control.Relay.Grants.{Grant}
use mesh2mesh.Control.Relay.Reach.{RelayFlow, new_flow, registrations_of, grant, RelayReach}
use mesh2mesh.Control.Wire.{max_frame_len}

-- With what was heard and called, and the relay with what it issued and received.
pub record PlaneFlow : Type 0 where
  pub plane : Plane
  pub history : List Happening
  pub relay_flow : RelayFlow

-- A machine for a grant of the relay
abbrev pub is_granted : Grant → PeerRow → Bool
is_granted g p =
    text_eq p.id g.peer_id && (text_eq p.tenant_id g.tenant_id && addr_eq p.mesh_ip g.mesh_ip)

abbrev granted_to : Peer → List ℕ → RelayFlow → RelayFlow
granted_to p token f = record f {
  relay = (issue p.id p.tenant_id p.mesh_ip token f.relay).1;
  issued = grant p.id p.tenant_id p.mesh_ip token ∷ f.issued;
}

-- A token is issued for a machine that there is.
abbrev pub grants_to : Saved Peer → List ℕ → RelayFlow → RelayFlow
grants_to (rejected e) token f = f
grants_to (saved p) token f = granted_to p token f

abbrev pub hands_over : List ℕ → AddrPort → ℕ → RelayFlow → RelayFlow
hands_over frame src now f = record f {
  relay = (handle_frame frame src now f.relay).1;
  registrations = registrations_of frame src ++ f.registrations;
}

-- A call is made where `updateEndpoint` comes to probe.
abbrev pub calls_of : AddrPort ⊎ MachineReply → List ℕ → Plane → List Happening
calls_of (inr reply) nonce plane = []
calls_of (inl target) nonce plane = called plane.prober.fresh target nonce ∷ []

module _ (web_token : Text) (trim_space : Text → Text) (query_unescape : Text → Option Text)
    (hash : Text → List ℕ) (parse_prefix : Text → Prefix ⊎ Text)
    (parse_endpoint : Text → Option AddrPort) (show_addr : Addr → Text) where
  -- The ids that the database draws are new.
  pub data PlaneReach : PlaneFlow → Type 0 where
    starts_up : PlaneReach (record { plane = new_plane; history = []; relay_flow = new_flow })
    serves_user :
        {f : PlaneFlow} (request : MeRequest) (route : MeRoute) (d : Draws)
        → PlaneReach f
        → IsNewId f.plane.registry d.id
        → PlaneReach (record f {
          plane =
              (user_request web_token trim_space query_unescape hash parse_prefix parse_endpoint
                show_addr request route d f.plane).1;
        })
    serves_machine :
        {f : PlaneFlow} (route : MachineRoute) (remote : Text) (d : Draws)
        → PlaneReach f
        → IsNewId f.plane.registry d.id
        → PlaneReach (record f {
          plane =
              (machine_request web_token trim_space query_unescape hash parse_prefix parse_endpoint
                show_addr route remote d f.plane).1;
        })
    probes :
        {f : PlaneFlow} (id : Text) (udp_port : Option ℕ) (remote : Text) (nonce : List ℕ)
        → PlaneReach f
        → PlaneReach (record f {
          plane = (start_endpoint parse_endpoint id udp_port remote nonce f.plane).1;
          history =
              calls_of
                (ask_endpoint parse_endpoint id udp_port remote f.plane.registry)
                nonce
                f.plane
              ++ f.history;
        })
    goes_on :
        {f : PlaneFlow} (c : ℕ) (signal : Signal)
        → PlaneReach f
        → PlaneReach (record f { plane = (plane_step c signal f.plane).1 })
    saves :
        {f : PlaneFlow} (c now probe_port : ℕ)
        → PlaneReach f
        → PlaneReach (record f { plane = (finish_endpoint c now probe_port f.plane).1 })
    grants :
        {f : PlaneFlow} (id : Text) (token : List ℕ) (port : ℕ)
        → PlaneReach f
        → PlaneReach (record f {
          plane = (issue_to id token port f.plane).1;
          relay_flow = grants_to (get_peer id f.plane.registry) token f.relay_flow;
        })
    hears :
        {f : PlaneFlow} (datagram : List ℕ) (from : AddrPort) (now : ℕ)
        → PlaneReach f
        → PlaneReach (record f {
          plane = (plane_receive datagram from now f.plane).1;
          history = heard datagram from ∷ f.history;
          relay_flow = hands_over (take max_frame_len datagram) (unmapped from) now f.relay_flow;
        })

-- A machine that is marked as directly reachable answered a probe, at the endpoint in its row.
pub data IsReported (history : List Happening) (p : PeerRow) : Type 0 where
  not_direct : p.direct_reachable ≡ false → IsReported history p
  direct :
      (c : ℕ) (endpoint : AddrPort) (nonce : List ℕ)
      → p.public_ip ≡ inet endpoint.ip
      → p.udp_port ≡ some endpoint.port
      → IsAnswered c endpoint nonce history
      → IsReported history p

-- Of the parts of the control plane together
pub record IsPlane (f : PlaneFlow) : Type 0 where
  pub tables : IsRegistry f.plane.registry
  pub prober : IsProber f.plane.prober f.history
  pub reported : All (IsReported f.history) f.plane.registry.peers
  pub relay : f.plane.prober.relay ≡ some f.relay_flow.relay
  pub relay_reach : RelayReach f.relay_flow
  pub granted : All (λ g. any (is_granted g) f.plane.registry.peers ≡ true) f.relay_flow.issued
