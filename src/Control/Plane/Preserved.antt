-- ===== src/Control/Plane/Preserved.antt =====
-- What each request, call and datagram keeps of the control plane as a whole.
use mesh2mesh.Base.{
  take, any, find, All-map, Text, text_eq_iff, Option-cases, ℕ, ◌≡◌, refl, ap, ◌∙◌, ◌⊎◌, inl, inr,
  true, Option, none, some, List, ◌∷◌, ◌++◌, arith,
}
use mesh2mesh.Control.Access.{MeRequest, MeRoute, Draws}
use mesh2mesh.Control.Access.Tenants.{as_user-IsGrown}
use mesh2mesh.Control.Addr.{Prefix}
use mesh2mesh.Control.Machines.{MachineRoute, MachineReply}
use mesh2mesh.Control.Machines.Endpoint.{issue_relay_token}
use mesh2mesh.Control.Machines.Keeps.{
  IsNewId, grown-IsTables, serve_machine-IsRegistry, save_endpoint-IsRegistry,
}
use mesh2mesh.Control.Machines.Source.{serve_machine-IsServed}
use mesh2mesh.Control.Netip.{Addr, AddrPort, addr_eq_iff}
use mesh2mesh.Control.Plane.{
  start_probe, save_phase, save_asked, issue_to, plane_step, plane_receive, user_request,
  machine_request,
}
use mesh2mesh.Control.Plane.Reach.{PlaneFlow, is_granted, grants_to, hands_over, calls_of, IsPlane}
use mesh2mesh.Control.Plane.Relayed.{receive-relay, step_call-relay, begin_call-relay}
use mesh2mesh.Control.Plane.Steps.{
  more-Kept, served-Kept, served-granted, save_endpoint-Kept, save_endpoint-granted,
}
use mesh2mesh.Control.Prober.{
  Phase, to_write, retrying, last_wait, returned, Call, Signal, unmapped,
}
use mesh2mesh.Control.Prober.Reach.{begin_call-IsProber, step_call-IsProber, receive-IsProber}
use mesh2mesh.Control.Prober.Replies.{heard}
use mesh2mesh.Control.Registry.{Registry, is_peer, get_peer}
use mesh2mesh.Control.Registry.Enrollment.{IsPlaced}
use mesh2mesh.Control.Registry.Ranges.{inside-is_4}
use mesh2mesh.Control.Registry.Rows.{All-find}
use mesh2mesh.Control.Relay.Reach.{grant, issues, receives}
use mesh2mesh.Control.Store.Counts.{find-some}
use mesh2mesh.Control.Wire.{max_frame_len}
use mesh2mesh.Control.Wire.RoundTrip.{IsAddr}

module _ (web_token : Text) (trim_space : Text → Text) (query_unescape : Text → Option Text)
    (hash : Text → List ℕ) (parse_prefix : Text → Prefix ⊎ Text)
    (parse_endpoint : Text → Option AddrPort) (show_addr : Addr → Text)
    (real : (s : Text) (p : Prefix) → parse_prefix s ≡ inl p → IsAddr p.addr) where
  module _ (f : PlaneFlow) (h : IsPlane f) where
    abbrev registry : Registry
    registry = f.plane.registry

    pub user-IsPlane :
        (request : MeRequest) (route : MeRoute) (d : Draws)
        → IsNewId registry d.id
        → IsPlane (record f {
          plane =
              (user_request web_token trim_space query_unescape hash parse_prefix parse_endpoint
                show_addr request route d f.plane).1;
        })
    unfolding user_request
    user-IsPlane request route d new = record {
      tables =
          grown-IsTables d.id registry.db.tenants registry.enrollment_tokens registry.peers
            (as_user-IsGrown web_token trim_space query_unescape hash parse_prefix real request
              route d registry.db)
            new.fresh_tenant h.tables;
      prober = h.prober;
      reported = h.reported;
      relay = h.relay;
      relay_reach = h.relay_reach;
      granted = h.granted;
    }

    pub machine-IsPlane :
        (route : MachineRoute) (remote : Text) (d : Draws)
        → IsNewId registry d.id
        → IsPlane (record f {
          plane =
              (machine_request web_token trim_space query_unescape hash parse_prefix parse_endpoint
                show_addr route remote d f.plane).1;
        })
    unfolding machine_request
    machine-IsPlane route remote d new =
        let served =
          serve_machine-IsServed web_token trim_space hash parse_prefix parse_endpoint show_addr d
            registry remote route in
        record {
          tables =
              serve_machine-IsRegistry web_token trim_space hash parse_prefix parse_endpoint
                show_addr real d registry new h.tables route remote;
          prober = h.prober;
          reported = served-Kept f.history _ registry.peers served h.reported;
          relay = h.relay;
          relay_reach = h.relay_reach;
          granted =
              All-map (λ g. any (is_granted g) registry.peers ≡ true) _
                (λ g k. served-granted g _ registry.peers served k) f.relay_flow.issued h.granted;
        }

    pub probe-IsPlane :
        (id : Text) (nonce : List ℕ) (o : AddrPort ⊎ MachineReply)
        → IsPlane (record f {
          plane = (start_probe id o nonce f.plane).1;
          history = calls_of o nonce f.plane ++ f.history;
        })
    probe-IsPlane id nonce (inr reply) = h
    probe-IsPlane id nonce (inl target) = record {
      tables = h.tables;
      prober = begin_call-IsProber target nonce f.plane.prober f.history h.prober;
      reported = more-Kept _ f.history registry.peers h.reported;
      relay = begin_call-relay target nonce f.plane.prober ∙ h.relay;
      relay_reach = h.relay_reach;
      granted = h.granted;
    }

    pub step-IsPlane :
        (c : ℕ) (signal : Signal) → IsPlane (record f { plane = (plane_step c signal f.plane).1 })
    step-IsPlane c signal = record {
      tables = h.tables;
      prober = step_call-IsProber c signal f.plane.prober f.history h.prober;
      reported = h.reported;
      relay = step_call-relay c signal f.plane.prober ∙ h.relay;
      relay_reach = h.relay_reach;
      granted = h.granted;
    }

    pub save-IsPlane :
        (c now probe_port : ℕ) (o : Option Text) (p : Option Call)
        → f.plane.prober.calls c ≡ p
        → IsPlane (record f { plane = (save_asked c o p now probe_port f.plane).1 })
    save-IsPlane c now probe_port none p its = h
    save-IsPlane c now probe_port (some id) none its = h
    save-IsPlane c now probe_port (some id) (some call) its = of_phase call.phase refl
      where
        of_phase :
            (phase : Phase)
            → call.phase ≡ phase
            → IsPlane (record f { plane = (save_phase c id call phase now probe_port f.plane).1 })
        of_phase (to_write k) e = h
        of_phase (retrying k) e = h
        of_phase last_wait e = h
        of_phase (returned reachable is_error) e = record {
          tables =
              save_endpoint-IsRegistry id call.target reachable now (some probe_port) registry
                h.tables;
          prober = h.prober;
          reported =
              save_endpoint-Kept f.history id c call reachable now (some probe_port) registry
                (λ yes_reachable. h.prober.replied c call its (
                  h.prober.reached c call is_error its
                    (e ∙ ap (λ x. returned x is_error) yes_reachable)))
                h.reported;
          relay = h.relay;
          relay_reach = h.relay_reach;
          granted =
              All-map (λ g. any (is_granted g) registry.peers ≡ true) _
                (λ g k.
                  save_endpoint-granted g id call.target reachable now (some probe_port) registry k)
                f.relay_flow.issued h.granted;
        }

    pub grant-IsPlane :
        (id : Text) (token : List ℕ) (port : ℕ)
        → IsPlane (record f {
          plane = (issue_to id token port f.plane).1;
          relay_flow = grants_to (get_peer id registry) token f.relay_flow;
        })
    unfolding issue_to issue_relay_token
    grant-IsPlane id token port = elim (Option-cases (find (is_peer id) registry.peers)) [
      | inl miss ↦
          rw (h.relay, miss)
            (record {
              tables = h.tables;
              prober = h.prober;
              reported = h.reported;
              relay = refl;
              relay_reach = h.relay_reach;
              granted = h.granted;
            })
      | inr (row, hit) ↦
          let placed =
            All-find (IsPlaced registry.db.tenants) (is_peer id) registry.peers row h.tables.placed
              hit in
          let four = inside-is_4 placed.tenant.cidr row.mesh_ip placed.inside in
          let (own, present) = find-some (is_peer id) registry.peers row hit in
          let g = grant row.id row.tenant_id row.mesh_ip token in
          let its : is_granted g row ≡ true = ground (
            arith,
            (text_eq_iff row.id row.id).1 refl,
            (text_eq_iff row.tenant_id row.tenant_id).1 refl,
            (addr_eq_iff row.mesh_ip row.mesh_ip).1 refl,
          ) in
          rw (h.relay, hit)
            (record {
              tables = h.tables;
              prober = h.prober;
              reported = h.reported;
              relay = refl;
              relay_reach = issues row.id row.tenant_id row.mesh_ip token h.relay_reach four;
              granted = (present (is_granted g) its, h.granted);
            })
    ]

    pub hear-IsPlane :
        (datagram : List ℕ) (from : AddrPort) (now : ℕ)
        → IsPlane (record f {
          plane = (plane_receive datagram from now f.plane).1;
          history = heard datagram from ∷ f.history;
          relay_flow = hands_over (take max_frame_len datagram) (unmapped from) now f.relay_flow;
        })
    hear-IsPlane datagram from now = record {
      tables = h.tables;
      prober = receive-IsProber f.plane.prober f.history datagram from h.prober now;
      reported = more-Kept _ f.history registry.peers h.reported;
      relay = receive-relay datagram from now f.plane.prober f.relay_flow.relay h.relay;
      relay_reach = receives (take max_frame_len datagram) (unmapped from) now h.relay_reach;
      granted = h.granted;
    }
