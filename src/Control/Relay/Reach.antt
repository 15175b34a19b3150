-- ===== src/Control/Relay/Reach.antt =====
-- What tokens internal/relay/relay.go issues, what frames it receives, and what is so of the relay
-- after any of them.
use mesh2mesh.Base.{
  length, take, Text, ltb, leb, ◌==◌, if◌then◌else◌, Bool-cases, ℕ, ◌≡◌, refl, ap, inl, inr, Bool,
  true, not, ◌||◌, Option, none, some, List, [], ◌∷◌, ◌++◌,
}
use mesh2mesh.Control.Netip.{Addr, AddrPort, addr_port_eq, is_4}
use mesh2mesh.Control.Relay.{
  Relay, new_relay, points_to, forget_old, new_session, issue, live, see, place, registered,
  register, destination, forward_from, forward, handle_decoded, handle_frame,
}
use mesh2mesh.Control.Relay.Current.{new_relay-IsCurrent, see-IsCurrent, move-IsCurrent}
use mesh2mesh.Control.Relay.Grants.{
  Grant, Registration, IsKept, new_relay-IsKept, forget-IsKept, enter-IsKept, see-IsKept,
}
use mesh2mesh.Control.Relay.Latest.{IsCurrent}
use mesh2mesh.Control.Relay.Moves.{move-IsKept}
use mesh2mesh.Control.Relay.Replaced.{forget_old-by_peer, forget_old-IsCurrent, enter-IsCurrent}
use mesh2mesh.Control.Wire.{
  type_relay_register, type_relay_data, relay_token_len, relay_header_len, Decoded, decoded,
  malformed, decode,
}
use mathlib.Core.List.{Memᴰ}

-- The relay with what was issued and which registrations came in, most recent first.
pub record RelayFlow : Type 0 where
  pub relay : Relay
  pub issued : List Grant
  pub registrations : List Registration

abbrev pub new_flow : RelayFlow
new_flow = record { relay = new_relay; issued = []; registrations = [] }

-- The test of `forward` on the receiver
abbrev pub unreachable : ℕ → List ℕ → ℕ → Relay → Bool
unreachable from frame now r =
    let r' = see from now r in
    let to = r'.by_mesh ((r'.heap from).tenant_id, destination frame) in
    points_to to from || not (live r' to now)

-- A payload that holds a token, from an address.
abbrev pub registration : List ℕ → AddrPort → List Registration
registration payload src =
    if ltb (length payload) relay_token_len then [] else (src, take relay_token_len payload) ∷ []

-- A frame of the registration type.
abbrev pub registration_in : Decoded → AddrPort → List Registration
registration_in (malformed e) src = []
registration_in (decoded type payload) src =
    if type == type_relay_register then registration payload src else []

abbrev pub registrations_of : List ℕ → AddrPort → List Registration
registrations_of frame src = registration_in (decode frame) src

abbrev pub grant : Text → Text → Addr → List ℕ → Grant
grant peer tenant ip token = record {
  peer_id = peer;
  tenant_id = tenant;
  mesh_ip = ip;
  token = token;
}

pub data RelayReach : RelayFlow → Type 0 where
  boots : RelayReach new_flow
  issues :
      {f : RelayFlow} (peer tenant : Text) (ip : Addr) (token : List ℕ)
      → RelayReach f
      → is_4 ip ≡ true
      → RelayReach (record f {
        relay = (issue peer tenant ip token f.relay).1;
        issued = grant peer tenant ip token ∷ f.issued;
      })
  receives :
      {f : RelayFlow} (frame : List ℕ) (src : AddrPort) (now : ℕ)
      → RelayReach f
      → RelayReach (record f {
        relay = (handle_frame frame src now f.relay).1;
        registrations = registrations_of frame src ++ f.registrations;
      })

-- Of the grants issued and the registrations received: whom the maps point to.
abbrev pub IsSound : List Grant → List Registration → Relay → Type 0
IsSound issued regs r = IsKept regs r × IsCurrent issued r

more-registrations :
    (new regs : List Registration) (r : Relay) → IsKept regs r → IsKept (new ++ regs) r
more-registrations new regs r h = record {
  placed = λ s p. later new (h.placed s p);
  token_held = h.token_held;
  addr_held = h.addr_held;
  mesh_held = h.mesh_held;
}
  where
    later : (new : List Registration) {x : Registration} → Memᴰ x regs → Memᴰ x (new ++ regs)
    later [] m = m
    later (n ∷ new) m = Memᴰ.tail (later new m)

forget_old-IsKept :
    (regs : List Registration) (o : Option ℕ) (r : Relay)
    → IsKept regs r
    → IsKept regs (forget_old o r)
forget_old-IsKept regs none r k = k
forget_old-IsKept regs (some s) r k = forget-IsKept regs s r k

issue-IsSound :
    (peer tenant : Text) (ip : Addr) (token : List ℕ) (issued : List Grant)
    (regs : List Registration) (r : Relay)
    → is_4 ip ≡ true
    → IsSound issued regs r
    → IsSound (grant peer tenant ip token ∷ issued) regs (issue peer tenant ip token r).1
unfolding issue
issue-IsSound peer tenant ip token issued regs r e (h, c) =
    let v = new_session peer tenant ip token in
    let r' = forget_old (r.by_peer peer) r in
    let h' = forget_old-IsKept regs (r.by_peer peer) r h in
    let c' = forget_old-IsCurrent issued regs (r.by_peer peer) r h c in
    let gone = forget_old-by_peer issued regs (r.by_peer peer) peer r c refl in
    rw e (enter-IsKept regs v r' refl h', enter-IsCurrent issued regs v r' h' c' gone refl)

module _ (issued : List Grant) (regs : List Registration) where
  see-IsSound : (s now : ℕ) (r : Relay) → IsSound issued regs r → IsSound issued regs (see s now r)
  see-IsSound s now r (h, c) = (see-IsKept regs s now r h, see-IsCurrent issued r s now c)

  pub registered-IsSound :
      (o : Option ℕ) (k : List ℕ) (src : AddrPort) (now : ℕ) (r : Relay)
      → IsSound issued regs r
      → r.by_token k ≡ o
      → IsSound issued ((src, k) ∷ regs) (registered o k src now r).1
  registered-IsSound none k src now r (h, c) e = (more-registrations ((src, k) ∷ []) regs r h, c)
  registered-IsSound (some s) k src now r (h, c) e =
      let (l, held) = h.token_held k s e in
      let more = more-registrations ((src, k) ∷ []) regs r h in
      let own = c.token_current k s e in
      let registered_here : Memᴰ (src, (r.heap s).token) ((src, k) ∷ regs) =
        Memᴰ.head (ap (λ t. (src, t)) held) in
      let placed : IsSound issued ((src, k) ∷ regs) (place s src r) =
        elim (Bool-cases (addr_port_eq (r.heap s).addr src)) [
          | inl stays ↦ rw stays (more, c)
          | inr moves ↦ rw moves (
            move-IsKept ((src, k) ∷ regs) s src r l registered_here more,
            move-IsCurrent issued r s src own c,
          )
        ] in
      (
        see-IsKept ((src, k) ∷ regs) s now (place s src r) placed.0,
        see-IsCurrent issued (place s src r) s now placed.1,
      )

  register-IsSound :
      (payload : List ℕ) (src : AddrPort) (now : ℕ) (r : Relay)
      → IsSound issued regs r
      → IsSound issued (registration payload src ++ regs) (register payload src now r).1
  unfolding register
  register-IsSound payload src now r h = elim (Bool-cases (ltb (length payload) relay_token_len)) [
    | inl short ↦ rw short h
    | inr long ↦ rw long (
        registered-IsSound (r.by_token (take relay_token_len payload))
          (take relay_token_len payload) src now r h refl)
  ]

  forward_from-IsSound :
      (o : Option ℕ) (frame : List ℕ) (now : ℕ) (r : Relay)
      → IsSound issued regs r
      → IsSound issued regs (forward_from o frame now r).1
  forward_from-IsSound none frame now r h = h
  forward_from-IsSound (some s) frame now r h =
      let seen = see-IsSound s now r h in
      elim (Bool-cases (unreachable s frame now r)) [ inl u ↦ rw u seen | inr u ↦ rw u seen ]

  forward-IsSound :
      (frame : List ℕ) (src : AddrPort) (now : ℕ) (r : Relay)
      → IsSound issued regs r
      → IsSound issued regs (forward frame src now r).1
  unfolding forward
  forward-IsSound frame src now r h = elim (Bool-cases (leb (length frame) relay_header_len)) [
    | inl short ↦ rw short h
    | inr long ↦ elim (Bool-cases (live r (r.by_addr src) now)) [
      | inl l ↦ rw (long, l) (forward_from-IsSound (r.by_addr src) frame now r h)
      | inr l ↦ rw (long, l) h
    ]
  ]

  handle_decoded-IsSound :
      (d : Decoded) (frame : List ℕ) (src : AddrPort) (now : ℕ) (r : Relay)
      → IsSound issued regs r
      → IsSound issued (registration_in d src ++ regs) (handle_decoded d frame src now r).1
  handle_decoded-IsSound (malformed e) frame src now r h = h
  handle_decoded-IsSound (decoded type payload) frame src now r h =
      elim (Bool-cases (type == type_relay_register)) [
        | inl t ↦ rw t (register-IsSound payload src now r h)
        | inr n ↦ elim (Bool-cases (type == type_relay_data)) [
          | inl t ↦ rw (n, t) (forward-IsSound frame src now r h)
          | inr m ↦ rw (n, m) h
        ]
      ]

  handle_frame-IsSound :
      (frame : List ℕ) (src : AddrPort) (now : ℕ) (r : Relay)
      → IsSound issued regs r
      → IsSound issued (registrations_of frame src ++ regs) (handle_frame frame src now r).1
  unfolding handle_frame
  handle_frame-IsSound frame src now r h = handle_decoded-IsSound (decode frame) frame src now r h

pub RelayReach-IsSound : {f : RelayFlow} → RelayReach f → IsSound f.issued f.registrations f.relay
RelayReach-IsSound boots = (new_relay-IsKept, new_relay-IsCurrent)
RelayReach-IsSound (issues {f} peer tenant ip token reach e) =
    issue-IsSound peer tenant ip token f.issued f.registrations f.relay e (RelayReach-IsSound reach)
RelayReach-IsSound (receives {f} frame src now reach) =
    handle_frame-IsSound f.issued f.registrations frame src now f.relay (RelayReach-IsSound reach)
