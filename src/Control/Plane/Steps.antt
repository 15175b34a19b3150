-- ===== src/Control/Plane/Steps.antt =====
-- What each request, call and datagram keeps of the control plane.
use mesh2mesh.Base.{
  any, All, All-map, Text, if◌then◌else◌, Bool-cases, ℕ, ◌≡◌, refl, ◌∙◌, inl, inr, Bool, true,
  Option, List, ◌∷◌, arith,
}
use mesh2mesh.Control.Machines.Endpoint.{save_endpoint}
use mesh2mesh.Control.Machines.Keeps.{nat-IsSame, endpoint-IsSame}
use mesh2mesh.Control.Machines.Source.{IsServed, same_peers, one_more, nat_told}
use mesh2mesh.Control.Netip.{Addr, AddrPort}
use mesh2mesh.Control.Plane.Reach.{is_granted, IsReported, not_direct, direct}
use mesh2mesh.Control.Prober.{Call}
use mesh2mesh.Control.Prober.Replies.{Happening, IsAnswered, answered_before}
use mesh2mesh.Control.Registry.{
  PeerRow, Registry, is_peer, is_port, with_endpoint, with_nat_endpoint, set_peer_endpoint,
}
use mesh2mesh.Control.Registry.Rows.{All-both}
use mesh2mesh.Control.Registry.Steps.{IsSame}
use mesh2mesh.Control.Relay.Grants.{Grant}
use mesh2mesh.Control.Store.Counts.{any-map}

-- Rows that are read back, when the history grows and when rows change.
abbrev pub Kept : List Happening → List PeerRow → Type 0
Kept history peers = All (IsReported history) peers

later-IsReported :
    (e : Happening) (history : List Happening) (p : PeerRow)
    → IsReported history p
    → IsReported (e ∷ history) p
later-IsReported e history p (not_direct d) = not_direct d
later-IsReported e history p (direct c endpoint nonce ip port answered) =
    direct c endpoint nonce ip port (answered_before e history answered)

pub more-Kept :
    (e : Happening) (history : List Happening) (peers : List PeerRow)
    → Kept history peers
    → Kept (e ∷ history) peers
more-Kept e history peers =
    All-map (IsReported history) (IsReported (e ∷ history)) (later-IsReported e history) peers

told-IsReported :
    (history : List Happening) (id : Text) (a : AddrPort) (p : PeerRow)
    → IsReported history p
    → IsReported history (if is_peer id p then with_nat_endpoint a p else p)
told-IsReported history id a p h = elim (Bool-cases (is_peer id p)) [
  | inr other ↦ rw other h
  | inl its ↦ rw its (nat h)
]
  where
    nat : IsReported history p → IsReported history (with_nat_endpoint a p)
    nat (not_direct d) = not_direct d
    nat (direct c endpoint nonce ip port answered) = direct c endpoint nonce ip port answered

pub served-Kept :
    {after : List PeerRow} (history : List Happening) (source : Option Addr) (before : List PeerRow)
    → IsServed source before after
    → Kept history before
    → Kept history after
served-Kept history source before same_peers h = h
served-Kept history source before (one_more p none_direct no_nat) h = (not_direct none_direct, h)
served-Kept history source before (nat_told id a own) h =
    All-both (IsReported history) (IsReported history) (IsReported history)
      (λ p. if is_peer id p then with_nat_endpoint a p else p)
      (λ p k k'. told-IsReported history id a p k) before h h

is_granted-change :
    (g : Grant) (id : Text) (change : PeerRow → PeerRow)
    → IsSame change
    → (p : PeerRow) → is_granted g (if is_peer id p then change p else p) ≡ is_granted g p
is_granted-change g id change s p = elim (Bool-cases (is_peer id p)) [
  | inr other ↦ rw other refl
  | inl its ↦ rw (its, s.id p, s.tenant_id p, s.mesh_ip p) refl
]

pub served-granted :
    {after : List PeerRow} (g : Grant) (source : Option Addr) (before : List PeerRow)
    → IsServed source before after
    → any (is_granted g) before ≡ true
    → any (is_granted g) after ≡ true
served-granted g source before same_peers h = h
served-granted g source before (one_more p none_direct no_nat) h = ground arith
served-granted g source before (nat_told id a own) h =
    any-map (is_granted g) (λ p. if is_peer id p then with_nat_endpoint a p else p)
      (is_granted-change g id (with_nat_endpoint a) (nat-IsSame a)) before
    ∙ h

-- What a probe found is saved.
saved-IsReported :
    (history : List Happening) (id : Text) (c : ℕ) (call : Call) (reachable : Bool) (now : ℕ)
    (p : PeerRow)
    → (reachable ≡ true → IsAnswered c call.target call.nonce history)
    → IsReported history p
    → IsReported history (if is_peer id p then with_endpoint call.target reachable now p else p)
saved-IsReported history id c call reachable now p answered h = elim (Bool-cases (is_peer id p)) [
  | inr other ↦ rw other h
  | inl its ↦ elim (Bool-cases reachable) [
    | inl yes_reachable ↦
        rw its (direct c call.target call.nonce refl refl (answered yes_reachable))
    | inr silent ↦ rw its (not_direct silent)
  ]
]

pub save_endpoint-Kept :
    (history : List Happening) (id : Text) (c : ℕ) (call : Call) (reachable : Bool) (now : ℕ)
    (probe_port : Option ℕ) (r : Registry)
    → (reachable ≡ true → IsAnswered c call.target call.nonce history)
    → Kept history r.peers
    → Kept history (save_endpoint id call.target reachable now probe_port r).1.peers
unfolding save_endpoint set_peer_endpoint
save_endpoint-Kept history id c call reachable now probe_port r answered h =
    elim (Bool-cases (any (is_peer id) r.peers)) [
      | inr absent ↦ rw absent h
      | inl present ↦ elim (Bool-cases (is_port call.target.port)) [
        | inr broken ↦ rw (present, broken) h
        | inl good ↦
            rw (present, good)
              (All-both (IsReported history) (IsReported history) (IsReported history) _
                (λ p k k'. saved-IsReported history id c call reachable now p answered k) r.peers h
                h)
      ]
    ]

pub save_endpoint-granted :
    (g : Grant) (id : Text) (endpoint : AddrPort) (reachable : Bool) (now : ℕ)
    (probe_port : Option ℕ) (r : Registry)
    → any (is_granted g) r.peers ≡ true
    → any (is_granted g) (save_endpoint id endpoint reachable now probe_port r).1.peers ≡ true
unfolding save_endpoint set_peer_endpoint
save_endpoint-granted g id endpoint reachable now probe_port r h =
    elim (Bool-cases (any (is_peer id) r.peers)) [
      | inr absent ↦ rw absent h
      | inl present ↦ elim (Bool-cases (is_port endpoint.port)) [
        | inr broken ↦ rw (present, broken) h
        | inl good ↦
            rw (present, good)
              (any-map (is_granted g) _
                  (is_granted-change g id (with_endpoint endpoint reachable now)
                    (endpoint-IsSame endpoint reachable now))
                  r.peers
                ∙ h)
      ]
    ]
