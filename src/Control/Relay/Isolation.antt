-- ===== src/Control/Relay/Isolation.antt =====
-- Between whom internal/relay/relay.go passes datagrams on.
use mesh2mesh.Base.{
  length, take, All, ltb, leb, ◌==◌, Bool-cases, ℕ, ◌≡◌, refl, sym, ap, ◌∙◌, subst, inl, inr, true,
  false, Option, none, some, List, [], ◌∷◌, ◌++◌, arith,
}
use mesh2mesh.Control.Netip.{AddrPort, is_valid}
use mesh2mesh.Control.Relay.{
  MeshKey, Relay, points_to, live, Datagram, see, registered, register, as_4, with_ip, destination,
  pass_on, forward_from, forward, handle_decoded, handle_frame,
}
use mesh2mesh.Control.Relay.Current.{see-IsCurrent}
use mesh2mesh.Control.Relay.Grants.{
  Grant, grant_of, Registration, see-addr, see-IsKept, some_injective,
}
use mesh2mesh.Control.Relay.Latest.{latest}
use mesh2mesh.Control.Relay.Reach.{
  RelayFlow, unreachable, registration, registration_in, registrations_of, RelayReach, IsSound,
  RelayReach-IsSound,
}
use mesh2mesh.Control.Wire.{
  type_relay_register, type_relay_ack, type_relay_data, relay_token_len, relay_header_len, encode,
  Decoded, decoded, malformed, decode,
}
use mathlib.Core.List.{Memᴰ}

-- A datagram that the relay may send for a frame from an address: an acknowledgement, or the frame
-- with another address in its header. Then the sender's address registered with the latest token
-- granted to one peer, the receiver's with that of another of the same tenant, whose mesh address
-- the frame names; and the receiver is told the sender's.
pub data IsProper (issued : List Grant) (regs : List Registration) (frame : List ℕ) (src : AddrPort)
    (d : Datagram) : Type 0 where
  acknowledges :
      (g : Grant)
      → latest g.peer_id issued ≡ some g
      → d.to ≡ src
      → d.frame ≡ encode [] type_relay_ack g.token
      → IsProper issued regs frame src d
  relays :
      (from to : Grant)
      → latest from.peer_id issued ≡ some from
      → latest to.peer_id issued ≡ some to
      → (from.peer_id ≡ to.peer_id → ⊥)
      → from.tenant_id ≡ to.tenant_id
      → to.mesh_ip ≡ destination frame
      → Memᴰ (src, from.token) regs
      → Memᴰ (d.to, to.token) regs
      → d.frame ≡ with_ip (as_4 from.mesh_ip) frame
      → IsProper issued regs frame src d

live-is_valid :
    (r : Relay) (s now : ℕ) → live r (some s) now ≡ true → is_valid (r.heap s).addr ≡ true
live-is_valid r s now v = ground arith

reachable-live :
    (s : ℕ) (frame : List ℕ) (now : ℕ) (r : Relay)
    → unreachable s frame now r ≡ false
    → live
        (see s now r)
        ((see s now r).by_mesh (((see s now r).heap s).tenant_id, destination frame))
        now
      ≡ true
reachable-live s frame now r u = ground arith

reachable-other :
    (s : ℕ) (frame : List ℕ) (now : ℕ) (r : Relay)
    → unreachable s frame now r ≡ false
    → points_to ((see s now r).by_mesh (((see s now r).heap s).tenant_id, destination frame)) s
      ≡ false
reachable-other s frame now r u = ground arith

points_to-other : (to from : ℕ) → points_to (some to) from ≡ false → from ≡ to → ⊥
points_to-other to from n e = ground arith

module _ (issued : List Grant) (regs : List Registration) where
  registered-IsProper :
      (o : Option ℕ) (k frame : List ℕ) (src : AddrPort) (now : ℕ) (r : Relay)
      → IsSound issued regs r
      → r.by_token k ≡ o
      → All (IsProper issued ((src, k) ∷ regs) frame src) (registered o k src now r).0
  registered-IsProper none k frame src now r h e = tt
  registered-IsProper (some s) k frame src now r (h, c) e =
      let (l, held) = h.token_held k s e in
      (
        acknowledges (grant_of (r.heap s))
            (c.peer_latest (r.heap s).peer_id s (c.token_current k s e)) refl
            (ap (λ t. encode [] type_relay_ack t) (sym held)),
        tt,
      )

  pass_on-IsProper :
      (from : ℕ) (o : Option ℕ) (frame : List ℕ) (src : AddrPort) (now : ℕ) (r : Relay)
      → IsSound issued regs r
      → r.by_peer (r.heap from).peer_id ≡ some from
      → Memᴰ (src, (r.heap from).token) regs
      → r.by_mesh ((r.heap from).tenant_id, destination frame) ≡ o
      → live r o now ≡ true
      → points_to o from ≡ false
      → All (IsProper issued regs frame src) (pass_on from o frame r)
  pass_on-IsProper from none frame src now r (h, c) own m e v n = tt
  pass_on-IsProper from (some to) frame src now r (h, c) own m e v n =
      let key : MeshKey = ((r.heap from).tenant_id, destination frame) in
      let (b, q) = h.mesh_held key to e in
      let other : from ≡ to → ⊥ = points_to-other to from n in
      (
        relays (grant_of (r.heap from)) (grant_of (r.heap to))
            (c.peer_latest (r.heap from).peer_id from own)
            (c.peer_latest (r.heap to).peer_id to (c.mesh_current key to e))
            (λ same. other (some_injective (sym own ∙ ap r.by_peer same ∙ c.mesh_current key to e)))
            (sym (ap (λ k. k.0) q)) (ap (λ k. k.1) q) m (h.placed to (ground arith)) refl,
        tt,
      )

  forward_from-IsProper :
      (o : Option ℕ) (frame : List ℕ) (src : AddrPort) (now : ℕ) (r : Relay)
      → IsSound issued regs r
      → r.by_addr src ≡ o
      → live r o now ≡ true
      → All (IsProper issued regs frame src) (forward_from o frame now r).0
  forward_from-IsProper none frame src now r h e v = tt
  forward_from-IsProper (some s) frame src now r (h, c) e v =
      elim (Bool-cases (unreachable s frame now r)) [
        | inl u ↦ rw u tt
        | inr u ↦ rw u (
            let kept = see-IsKept regs s now r h in
            let current = see-IsCurrent issued r s now c in
            let (l, at_src) = h.addr_held src s e in
            let valid = ap is_valid (see-addr s now r s) ∙ live-is_valid r s now v in
            pass_on-IsProper s
              ((see s now r).by_mesh (((see s now r).heap s).tenant_id, destination frame)) frame
              src now (see s now r) (kept, current) (current.addr_current src s e)
              (subst (λ a. Memᴰ (a, ((see s now r).heap s).token) regs)
                (see-addr s now r s ∙ at_src) (kept.placed s valid))
              refl (reachable-live s frame now r u) (reachable-other s frame now r u))
      ]

  forward-IsProper :
      (frame : List ℕ) (src : AddrPort) (now : ℕ) (r : Relay)
      → IsSound issued regs r
      → All (IsProper issued regs frame src) (forward frame src now r).0
  unfolding forward
  forward-IsProper frame src now r h = elim (Bool-cases (leb (length frame) relay_header_len)) [
    | inl short ↦ rw short tt
    | inr long ↦ elim (Bool-cases (live r (r.by_addr src) now)) [
      | inl l ↦ rw (long, l) (forward_from-IsProper (r.by_addr src) frame src now r h refl l)
      | inr l ↦ rw (long, l) tt
    ]
  ]

  register-IsProper :
      (payload frame : List ℕ) (src : AddrPort) (now : ℕ) (r : Relay)
      → IsSound issued regs r
      → All
          (IsProper issued (registration payload src ++ regs) frame src)
          (register payload src now r).0
  unfolding register
  register-IsProper payload frame src now r h =
      elim (Bool-cases (ltb (length payload) relay_token_len)) [
        | inl short ↦ rw short tt
        | inr long ↦ rw long (
            registered-IsProper (r.by_token (take relay_token_len payload))
              (take relay_token_len payload) frame src now r h refl)
      ]

  handle_decoded-IsProper :
      (d : Decoded) (frame : List ℕ) (src : AddrPort) (now : ℕ) (r : Relay)
      → IsSound issued regs r
      → All
          (IsProper issued (registration_in d src ++ regs) frame src)
          (handle_decoded d frame src now r).0
  handle_decoded-IsProper (malformed e) frame src now r h = tt
  handle_decoded-IsProper (decoded type payload) frame src now r h =
      elim (Bool-cases (type == type_relay_register)) [
        | inl t ↦ rw t (register-IsProper payload frame src now r h)
        | inr n ↦ elim (Bool-cases (type == type_relay_data)) [
          | inl t ↦ rw (n, t) (forward-IsProper frame src now r h)
          | inr m ↦ rw (n, m) tt
        ]
      ]

-- A relay that has issued tokens and received frames, in any order, sends on a further frame only
-- proper datagrams: the acknowledgement of a peer's latest token, to the frame's source; or, if the
-- source registered with the latest token of one peer, the frame with that peer's mesh address in
-- its header, sent to where another peer of its tenant, which has the mesh address that the frame
-- names, registered with its own latest token.
pub handle_frame-IsProper :
    (f : RelayFlow) (frame : List ℕ) (src : AddrPort) (now : ℕ)
    → RelayReach f
    → All
        (IsProper f.issued (registrations_of frame src ++ f.registrations) frame src)
        (handle_frame frame src now f.relay).0
unfolding handle_frame
handle_frame-IsProper f frame src now reach =
    handle_decoded-IsProper f.issued f.registrations (decode frame) frame src now f.relay
      (RelayReach-IsSound reach)
