-- ===== src/Control/Plane/Invariant.antt =====
-- The invariant of the control plane, over all that reaches it.
use mesh2mesh.Base.{All, Text, ℕ, ◌≡◌, refl, ◌⊎◌, inl, Option, List, arith}
use mesh2mesh.Control.Addr.{Prefix}
use mesh2mesh.Control.Machines.Endpoint.{ask_endpoint}
use mesh2mesh.Control.Netip.{Addr, AddrPort}
use mesh2mesh.Control.Plane.{finish_endpoint, start_endpoint}
use mesh2mesh.Control.Plane.Preserved.{
  user-IsPlane, machine-IsPlane, probe-IsPlane, step-IsPlane, save-IsPlane, grant-IsPlane,
  hear-IsPlane,
}
use mesh2mesh.Control.Plane.Reach.{
  PlaneFlow, PlaneReach, starts_up, serves_user, serves_machine, probes, goes_on, saves, grants,
  hears, IsReported, IsPlane,
}
use mesh2mesh.Control.Prober.Reach.{IsProber, new_prober-IsProber}
use mesh2mesh.Control.Registry.Enrollment.{IsRegistry}
use mesh2mesh.Control.Relay.Reach.{boots}
use mesh2mesh.Control.Wire.RoundTrip.{IsAddr}

module _ (web_token : Text) (trim_space : Text → Text) (query_unescape : Text → Option Text)
    (hash : Text → List ℕ) (parse_prefix : Text → Prefix ⊎ Text)
    (parse_endpoint : Text → Option AddrPort) (show_addr : Addr → Text)
    (real : (s : Text) (p : Prefix) → parse_prefix s ≡ inl p → IsAddr p.addr) where
  pub PlaneReach-IsPlane :
      {f : PlaneFlow}
      → PlaneReach web_token trim_space query_unescape hash parse_prefix parse_endpoint show_addr f
      → IsPlane f
  unfolding start_endpoint finish_endpoint
  PlaneReach-IsPlane starts_up = record {
    tables = record {
      ranges = tt;
      token_tenants = tt;
      token_once = λ id. omega arith;
      spent = tt;
      placed = tt;
      mesh_once = λ tenant ip. omega arith;
      key_once = λ tenant key. omega arith;
    };
    prober = new_prober-IsProber;
    reported = tt;
    relay = refl;
    relay_reach = boots;
    granted = tt;
  }
  PlaneReach-IsPlane (serves_user {f} request route d reach new) =
      user-IsPlane web_token trim_space query_unescape hash parse_prefix parse_endpoint show_addr
        real f (PlaneReach-IsPlane reach) request route d new
  PlaneReach-IsPlane (serves_machine {f} route remote d reach new) =
      machine-IsPlane web_token trim_space query_unescape hash parse_prefix parse_endpoint show_addr
        real f (PlaneReach-IsPlane reach) route remote d new
  PlaneReach-IsPlane (probes {f} id udp_port remote nonce reach) =
      probe-IsPlane web_token trim_space query_unescape hash parse_prefix parse_endpoint show_addr
        real f (PlaneReach-IsPlane reach) id nonce
        (ask_endpoint parse_endpoint id udp_port remote f.plane.registry)
  PlaneReach-IsPlane (goes_on {f} c signal reach) =
      step-IsPlane web_token trim_space query_unescape hash parse_prefix parse_endpoint show_addr
        real f (PlaneReach-IsPlane reach) c signal
  PlaneReach-IsPlane (saves {f} c now probe_port reach) =
      save-IsPlane web_token trim_space query_unescape hash parse_prefix parse_endpoint show_addr
        real f (PlaneReach-IsPlane reach) c now probe_port (f.plane.asked c)
        (f.plane.prober.calls c) refl
  PlaneReach-IsPlane (grants {f} id token port reach) =
      grant-IsPlane web_token trim_space query_unescape hash parse_prefix parse_endpoint show_addr
        real f (PlaneReach-IsPlane reach) id token port
  PlaneReach-IsPlane (hears {f} datagram from now reach) =
      hear-IsPlane web_token trim_space query_unescape hash parse_prefix parse_endpoint show_addr
        real f (PlaneReach-IsPlane reach) datagram from now

  -- Whatever requests, probes and datagrams came before, in any order: each token counts as its uses
  -- the machines that it enrolled, and these are no more than it allows; each machine has an address
  -- inside its tenant's range, neither one of the first two nor the last; and no two of a tenant
  -- have one address, or one key. The ids that the database draws are taken to be new, and the
  -- addresses of the prefixes that are parsed to be addresses.
  pub PlaneReach-IsRegistry :
      {f : PlaneFlow}
      → PlaneReach web_token trim_space query_unescape hash parse_prefix parse_endpoint show_addr f
      → IsRegistry f.plane.registry
  PlaneReach-IsRegistry reach = (PlaneReach-IsPlane reach).tables

  -- Whatever came before, in any order: a machine that is marked as directly reachable has an
  -- endpoint from which a probe reply came, with the nonce of a call that probed this endpoint, after
  -- this call began; if drawn ids are new and the addresses of parsed prefixes are addresses.
  pub PlaneReach-IsReported :
      {f : PlaneFlow}
      → PlaneReach web_token trim_space query_unescape hash parse_prefix parse_endpoint show_addr f
      → All (IsReported f.history) f.plane.registry.peers
  PlaneReach-IsReported reach = (PlaneReach-IsPlane reach).reported

  -- Whatever came before, in any order: no channel is closed twice; a waiter is that of a call that
  -- has not returned, with its target and its nonce, and its channel is not closed; a channel is
  -- closed only if its call was answered, and a call says that its target is reachable only if its
  -- channel is closed; if drawn ids are new and the addresses of parsed prefixes are addresses.
  pub PlaneReach-IsProber :
      {f : PlaneFlow}
      → PlaneReach web_token trim_space query_unescape hash parse_prefix parse_endpoint show_addr f
      → IsProber f.plane.prober f.history
  PlaneReach-IsProber reach = (PlaneReach-IsPlane reach).prober
