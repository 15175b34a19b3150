-- ===== src/Control/Plane/Tests.antt =====
-- A run of the control plane's models: a tenant, a token, a machine that is probed, and datagrams.
use mesh2mesh.Base.{
  length, take, All, Text, lit, is_space, trim, ℕ, ◌≤◌, ◌≡◌, refl, subst, ◌⊎◌, inl, Bool, true,
  false, Option, some, List, [], ◌∷◌, ◌++◌, map, arith,
}
use mesh2mesh.Control.Access.{MeRequest, MeRoute, create_my_tenant, Draws}
use mesh2mesh.Control.Addr.{Prefix}
use mesh2mesh.Control.Machines.{
  MachineRoute, post_token, post_peer, post_nat_endpoint, token_ttl, remote_addr, serve_machine,
}
use mesh2mesh.Control.Machines.Keeps.{IsNewId}
use mesh2mesh.Control.Machines.Source.{IsServed, serve_machine-IsServed}
use mesh2mesh.Control.Netip.{Addr, v4, AddrPort}
use mesh2mesh.Control.Plane.{
  Plane, new_plane, finish_endpoint, plane_step, plane_receive, start_endpoint, user_request,
  machine_request,
}
use mesh2mesh.Control.Plane.Invariant.{
  PlaneReach-IsRegistry, PlaneReach-IsReported, PlaneReach-IsProber,
}
use mesh2mesh.Control.Plane.Passing.{IsAllowed, plane_receive-IsAllowed}
use mesh2mesh.Control.Plane.Reach.{
  PlaneFlow, PlaneReach, starts_up, serves_user, serves_machine, probes, goes_on, saves, hears,
  IsReported,
}
use mesh2mesh.Control.Prober.{
  probe_retries, new_prober, begin_call, write_ends, reply_seen, retry_elapsed, deadline_passed,
  step_call, unmapped, receive,
}
use mesh2mesh.Control.Prober.Binding.{IsTold, receive-IsTold}
use mesh2mesh.Control.Prober.Bounds.{sent_bytes, receive-bytes}
use mesh2mesh.Control.Prober.Calls.{probe}
use mesh2mesh.Control.Prober.Ends.{Move, own, starts_call, reads, run_moves, IsOver, call-ends}
use mesh2mesh.Control.Prober.Reach.{IsProber}
use mesh2mesh.Control.Prober.Replies.{called, heard}
use mesh2mesh.Control.Registry.{PeerRow}
use mesh2mesh.Control.Registry.Enroll.{register_peer}
use mesh2mesh.Control.Registry.Enrollment.{IsRegistry, IsEnrolled, register_peer-IsEnrolled}
use mesh2mesh.Control.Relay.{handle_frame}
use mesh2mesh.Control.Relay.Reach.{new_flow}
use mesh2mesh.Control.Store.{create_owned_tenant}
use mesh2mesh.Control.Wire.{type_probe_reply, type_binding_request, max_frame_len, encode, decode}
use mesh2mesh.Control.Wire.RoundTrip.{IsAddr}

abbrev secret : Text
secret = lit "secret"

abbrev unescaped : Text → Option Text
unescaped name = some name

abbrev hashed : Text → List ℕ
hashed code = code

-- 10.203.0.0/29, 192.0.2.1:40000
abbrev office_range : Prefix
office_range = record { addr = v4 181075968; bits = 29 }

abbrev parsed : Text → Prefix ⊎ Text
parsed cidr = inl office_range

abbrev home : AddrPort
home = record { ip = v4 3221225985; port = 40000 }

abbrev at_home : Text → Option AddrPort
at_home text = some home

abbrev shown : Addr → Text
shown a = []

parsed-IsAddr : (s : Text) (p : Prefix) → parsed s ≡ inl p → IsAddr p.addr
parsed-IsAddr s p e = subst (λ q. IsAddr q.addr) (same e) (omega arith)
  where
    same : {p q : Prefix} → ◌≡◌ {A = Prefix ⊎ Text} (inl p) (inl q) → p ≡ q
    same e = cc

abbrev alice : MeRequest
alice = record {
  authorization = lit "Bearer secret";
  user_id = lit "alice";
  user_email = [];
  user_name = lit "Alice";
}

abbrev new_office : MeRoute
new_office = create_my_tenant (some (record { name = lit "Office"; cidr = [] }))

abbrev draws_of : Text → Draws
draws_of id = record { id = id; code = id; now = 5 }

abbrev ask_token : MachineRoute
ask_token = post_token (lit "office") (some (record { ttl_seconds = 60; max_uses = 1 }))

abbrev enroll : MachineRoute
enroll =
    post_peer (some (record { token = lit "token"; name = lit "laptop"; public_key = lit "key" }))

abbrev with_office : Plane
with_office =
    (user_request secret trim unescaped hashed parsed at_home shown alice new_office
      (draws_of (lit "office")) new_plane).1

abbrev with_token_row : Plane
with_token_row =
    (machine_request secret trim unescaped hashed parsed at_home shown ask_token []
      (draws_of (lit "token")) with_office).1

abbrev with_laptop : Plane
with_laptop =
    (machine_request secret trim unescaped hashed parsed at_home shown enroll []
      (draws_of (lit "laptop")) with_token_row).1

abbrev nonce : List ℕ
nonce = 1 ∷ 2 ∷ 3 ∷ 4 ∷ 5 ∷ 6 ∷ 7 ∷ 8 ∷ 9 ∷ 10 ∷ 11 ∷ 12 ∷ 13 ∷ 14 ∷ 15 ∷ 16 ∷ []

abbrev probing : Plane
probing = (start_endpoint at_home (lit "laptop") (some 51820) [] nonce with_laptop).1

abbrev endpoint : AddrPort
endpoint = record { ip = v4 3221225985; port = 51820 }

abbrev probe_reply : List ℕ
probe_reply = encode [] type_probe_reply nonce

abbrev seen : Plane
seen =
    (finish_endpoint 0 9 51821
      (plane_step 0 reply_seen
        (plane_receive probe_reply endpoint 8 (plane_step 0 (write_ends true) probing).1).1).1).1

abbrev seen_flow : PlaneFlow
seen_flow = record {
  plane = seen;
  history = heard probe_reply endpoint ∷ called 0 endpoint nonce ∷ [];
  relay_flow = new_flow;
}

-- The machine has the first address that a machine may have, and its endpoint is its own.
abbrev seen_row : PeerRow → Addr × Option Addr × Bool
seen_row p = (p.mesh_ip, p.public_ip, p.direct_reachable)

laptop_is_seen : map seen_row seen.registry.peers ≡ (v4 181075970, some (v4 3221225985), true) ∷ []
unfolding lit trim is_space finish_endpoint start_endpoint machine_request user_request
    create_owned_tenant step_call receive encode
laptop_is_seen = refl

abbrev Reaches : PlaneFlow → Type 0
Reaches = PlaneReach secret trim unescaped hashed parsed at_home shown

token_is_new : IsNewId with_office.registry (lit "token")
unfolding lit trim is_space user_request create_owned_tenant
token_is_new = record { fresh_tenant = refl; fresh_token = refl; fresh_machine = refl }

laptop_is_new : IsNewId with_token_row.registry (lit "laptop")
unfolding lit trim is_space machine_request user_request create_owned_tenant
laptop_is_new = record { fresh_tenant = refl; fresh_token = refl; fresh_machine = refl }

office_is_reached : Reaches (record { plane = with_office; history = []; relay_flow = new_flow })
office_is_reached =
    serves_user alice new_office (draws_of (lit "office")) starts_up
      (record { fresh_tenant = refl; fresh_token = refl; fresh_machine = refl })

laptop_is_reached : Reaches (record { plane = with_laptop; history = []; relay_flow = new_flow })
laptop_is_reached =
    serves_machine enroll [] (draws_of (lit "laptop"))
      (serves_machine ask_token [] (draws_of (lit "token")) office_is_reached token_is_new)
      laptop_is_new

PlaneReach-IsRegistry_example : IsRegistry with_laptop.registry
PlaneReach-IsRegistry_example =
    PlaneReach-IsRegistry secret trim unescaped hashed parsed at_home shown parsed-IsAddr
      laptop_is_reached

probing_is_reached :
    Reaches
      (record { plane = probing; history = called 0 endpoint nonce ∷ []; relay_flow = new_flow })
unfolding lit trim is_space start_endpoint machine_request user_request create_owned_tenant
probing_is_reached = probes (lit "laptop") (some 51820) [] nonce laptop_is_reached

seen_is_reached : Reaches seen_flow
unfolding lit trim is_space start_endpoint machine_request user_request create_owned_tenant encode
    decode handle_frame
seen_is_reached = saves 0 9 51821 (
    goes_on 0 reply_seen
      (hears probe_reply endpoint 8 (goes_on 0 (write_ends true) probing_is_reached)))

PlaneReach-IsReported_example : All (IsReported seen_flow.history) seen.registry.peers
PlaneReach-IsReported_example =
    PlaneReach-IsReported secret trim unescaped hashed parsed at_home shown parsed-IsAddr
      seen_is_reached

PlaneReach-IsProber_example : IsProber seen.prober seen_flow.history
PlaneReach-IsProber_example =
    PlaneReach-IsProber secret trim unescaped hashed parsed at_home shown parsed-IsAddr
      seen_is_reached

-- A binding request as long as its answer
abbrev ask_binding : List ℕ
ask_binding = nonce ++ (nonce ++ (0 ∷ 0 ∷ []))

abbrev binding_request : List ℕ
binding_request = encode [] type_binding_request ask_binding

plane_receive-IsAllowed_example :
    All
      (IsAllowed seen.registry.peers (take max_frame_len binding_request) (unmapped home))
      (plane_receive binding_request home 9 seen).0
plane_receive-IsAllowed_example =
    plane_receive-IsAllowed secret trim unescaped hashed parsed at_home shown parsed-IsAddr
      seen_flow binding_request home 9 seen_is_reached

receive-bytes_example :
    sent_bytes (receive binding_request home 9 seen.prober).0 ≤ length binding_request
receive-bytes_example = receive-bytes binding_request home 9 seen.prober

receive-IsTold_example :
    IsTold ask_binding home (receive binding_request home 9 new_prober).0
    × ((receive binding_request home 9 new_prober).1 ≡ new_prober)
unfolding encode decode
receive-IsTold_example =
    receive-IsTold binding_request ask_binding home 9 new_prober refl (omega arith) (omega arith)

abbrev two_attempts : List Move
two_attempts =
    own (write_ends true)
    ∷ reads binding_request home 9
    ∷ own retry_elapsed
    ∷ starts_call endpoint ask_binding
    ∷ own (write_ends false)
    ∷ []

call-ends_example :
    let ran = run_moves 0 two_attempts (begin_call home nonce new_prober) in
    (length ran.0 ≤ probe_retries)
    × All (λ d. d ≡ probe home nonce) ran.0
    × IsOver 0 (step_call 0 deadline_passed (step_call 0 (write_ends true) ran.1).1).1
call-ends_example = call-ends home nonce new_prober two_attempts true refl

register_peer-IsEnrolled_example :
    IsEnrolled hashed
      (lit "laptop")
      5
      (lit "token")
      (lit "laptop")
      (lit "key")
      with_token_row.registry
      (register_peer hashed
        (lit "laptop")
        5
        (lit "token")
        (lit "laptop")
        (lit "key")
        with_token_row.registry)
register_peer-IsEnrolled_example =
    register_peer-IsEnrolled hashed (lit "laptop") 5 (lit "token") (lit "laptop") (lit "key")
      with_token_row.registry
      (PlaneReach-IsRegistry secret trim unescaped hashed parsed at_home shown parsed-IsAddr
        (serves_machine ask_token [] (draws_of (lit "token")) office_is_reached token_is_new))

serve_machine-IsServed_example :
    IsServed
      (remote_addr at_home [])
      seen.registry.peers
      (serve_machine secret trim hashed parsed at_home shown
        (post_nat_endpoint (lit "laptop") (some []))
        []
        (draws_of [])
        seen.registry).1.peers
serve_machine-IsServed_example =
    serve_machine-IsServed secret trim hashed parsed at_home shown (draws_of []) seen.registry []
      (post_nat_endpoint (lit "laptop") (some []))

-- A number of seconds whose nanoseconds pass 2 ^ 64 is a fraction of a second.
wrapped_token_ttl : token_ttl (record { ttl_seconds = 18446744074; max_uses = 0 }) ≡ 290448384
wrapped_token_ttl = refl
