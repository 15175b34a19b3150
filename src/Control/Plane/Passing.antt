-- ===== src/Control/Plane/Passing.antt =====
-- What the control plane's socket sends for a datagram, and between which machines.
use mesh2mesh.Base.{
  length, take, any, find, All, All-map, Text, text_eq, text_eq_iff, ltb, ◌==◌, Bool-cases,
  and_parts, ℕ, ◌≡◌, refl, sym, ap, ◌∙◌, subst, ◌⊎◌, inl, inr, Bool, true, ◌&&◌, ◌||◌, Option, some,
  List, [], ◌∷◌, ◌++◌,
}
use mesh2mesh.Control.Addr.{Prefix}
use mesh2mesh.Control.Netip.{Addr, AddrPort, addr_eq, addr_eq_iff}
use mesh2mesh.Control.Plane.{plane_receive}
use mesh2mesh.Control.Plane.Invariant.{PlaneReach-IsPlane}
use mesh2mesh.Control.Plane.Reach.{PlaneFlow, is_granted, PlaneReach, IsPlane}
use mesh2mesh.Control.Prober.{answer_binding, to_relay, dispatch, unmapped, receive}
use mesh2mesh.Control.Registry.{PeerRow}
use mesh2mesh.Control.Registry.Rows.{null_some, same_row, find-any}
use mesh2mesh.Control.Relay.{Datagram, as_4, with_ip, destination, handle_frame}
use mesh2mesh.Control.Relay.Grants.{Grant, Registration}
use mesh2mesh.Control.Relay.Isolation.{IsProper, acknowledges, relays, handle_frame-IsProper}
use mesh2mesh.Control.Relay.Latest.{latest}
use mesh2mesh.Control.Relay.Reach.{registrations_of}
use mesh2mesh.Control.Store.Counts.{find-some}
use mesh2mesh.Control.Wire.{
  type_probe_reply, type_binding_request, type_relay_register, type_relay_data, binding_len,
  max_frame_len, Decoded, decoded, malformed, decode,
}
use mesh2mesh.Control.Wire.RoundTrip.{IsAddr}
use mathlib.Core.List.{Memᴰ}

-- To where the datagram came from; or from one machine to another of its tenant, whose mesh address
-- the frame names, with the sender's mesh address in its place.
pub data IsAllowed (peers : List PeerRow) (frame : List ℕ) (src : AddrPort) (d : Datagram)
    : Type 0 where
  to_source : d.to ≡ src → IsAllowed peers frame src d
  between :
      (from to : PeerRow)
      → Memᴰ from peers
      → Memᴰ to peers
      → (from.id ≡ to.id → ⊥)
      → from.tenant_id ≡ to.tenant_id
      → to.mesh_ip ≡ destination frame
      → d.frame ≡ with_ip (as_4 from.mesh_ip) frame
      → IsAllowed peers frame src d

find-member : {A : Type 0} (p : A → Bool) (xs : List A) (a : A) → find p xs ≡ some a → Memᴰ a xs
find-member p [] a e = absurd (null_some e)
find-member p (x ∷ xs) a e = elim (Bool-cases (p x)) [
  | inl hit ↦ Memᴰ.head (sym (same_row (rw hit at e)))
  | inr miss ↦ Memᴰ.tail (find-member p xs a (rw miss at e))
]

All-latest :
    (P : Grant → Type 0) (peer : Text) (issued : List Grant) (g : Grant)
    → All P issued
    → latest peer issued ≡ some g
    → P g
unfolding latest
All-latest P peer [] g h e = absurd (null_some e)
All-latest P peer (x ∷ issued) g (h, hs) e = elim (Bool-cases (text_eq x.peer_id peer)) [
  | inl hit ↦ subst P (same_row (rw hit at e)) h
  | inr miss ↦ All-latest P peer issued g hs (rw miss at e)
]

-- The machine of a grant
record IsMachine (peers : List PeerRow) (g : Grant) : Type 0 where
  row : PeerRow
  present : Memᴰ row peers
  same_id : row.id ≡ g.peer_id
  same_tenant : row.tenant_id ≡ g.tenant_id
  same_ip : row.mesh_ip ≡ g.mesh_ip

granted-IsMachine :
    (peers : List PeerRow) (g : Grant) → any (is_granted g) peers ≡ true → IsMachine peers g
granted-IsMachine peers g h =
    let (row, hit) = find-any (is_granted g) peers h in
    let own = (find-some (is_granted g) peers row hit).0 in
    let (id, rest) =
      and_parts (text_eq row.id g.peer_id)
        (text_eq row.tenant_id g.tenant_id && addr_eq row.mesh_ip g.mesh_ip) own in
    let (tenant, ip) =
      and_parts (text_eq row.tenant_id g.tenant_id) (addr_eq row.mesh_ip g.mesh_ip) rest in
    record {
      row = row;
      present = find-member (is_granted g) peers row hit;
      same_id = (text_eq_iff row.id g.peer_id).0 id;
      same_tenant = (text_eq_iff row.tenant_id g.tenant_id).0 tenant;
      same_ip = (addr_eq_iff row.mesh_ip g.mesh_ip).0 ip;
    }

proper-IsAllowed :
    (peers : List PeerRow) (issued : List Grant) (regs : List Registration) (frame : List ℕ)
    (src : AddrPort) (d : Datagram)
    → All (λ g. any (is_granted g) peers ≡ true) issued
    → IsProper issued regs frame src d
    → IsAllowed peers frame src d
proper-IsAllowed peers issued regs frame src d granted (acknowledges g last to ack) = to_source to
proper-IsAllowed peers issued regs frame src d granted
      (relays from to last last' differ tenant named reg reg' header) =
    let its : (g : Grant) → latest g.peer_id issued ≡ some g → IsMachine peers g = λ g e.
      granted-IsMachine peers g
        (All-latest (λ g. any (is_granted g) peers ≡ true) g.peer_id issued g granted e) in
    let a : IsMachine peers from = its from last in
    let b : IsMachine peers to = its to last' in
    between a.row b.row a.present b.present (λ e. differ (sym a.same_id ∙ e ∙ b.same_id))
      (a.same_tenant ∙ tenant ∙ sym b.same_tenant) (b.same_ip ∙ named)
      (header ∙ ap (λ ip. with_ip (as_4 ip) frame) (sym a.same_ip))

answer_binding-IsAllowed :
    (peers : List PeerRow) (frame payload : List ℕ) (src : AddrPort)
    → All (IsAllowed peers frame src) (answer_binding payload src)
unfolding answer_binding
answer_binding-IsAllowed peers frame payload src =
    elim (Bool-cases (ltb (length payload) binding_len)) [
      | inl short ↦ rw short tt
      | inr long ↦ rw long (to_source refl, tt)
    ]

module _ (f : PlaneFlow) (h : IsPlane f) (src : AddrPort) (now : ℕ) where
  abbrev machines : List PeerRow
  machines = f.plane.registry.peers

  to_relay-IsAllowed :
      (frame : List ℕ)
      → All
          (IsAllowed machines frame src)
          (to_relay f.plane.prober.relay frame src now f.plane.prober).0
  to_relay-IsAllowed frame = rw h.relay (
      All-map
        (IsProper f.relay_flow.issued (registrations_of frame src ++ f.relay_flow.registrations)
          frame src)
        (IsAllowed machines frame src)
        (λ d proper.
          proper-IsAllowed machines f.relay_flow.issued
            (registrations_of frame src ++ f.relay_flow.registrations) frame src d h.granted proper)
        (handle_frame frame src now f.relay_flow.relay).0
        (handle_frame-IsProper f.relay_flow frame src now h.relay_reach))

  dispatch-IsAllowed :
      (d : Decoded) (frame : List ℕ)
      → All (IsAllowed machines frame src) (dispatch d frame src now f.plane.prober).0
  dispatch-IsAllowed (malformed e) frame = tt
  dispatch-IsAllowed (decoded type payload) frame =
      elim (Bool-cases (type == type_binding_request)) [
        | inl binding ↦ rw binding (answer_binding-IsAllowed machines frame payload src)
        | inr no_binding ↦
            elim (Bool-cases (type == type_relay_register || type == type_relay_data)) [
              | inl relayed ↦ rw (no_binding, relayed) (to_relay-IsAllowed frame)
              | inr not_relayed ↦ elim (Bool-cases (type == type_probe_reply)) [
                | inl reply ↦ rw (no_binding, not_relayed, reply) tt
                | inr other ↦ rw (no_binding, not_relayed, other) tt
              ]
            ]
      ]

-- After any requests, probes and datagrams, in any order, the control plane sends for a further
-- datagram only to where it came from, or what the relay passes on: the frame, with the mesh
-- address of one enrolled machine in its header, and only if it names the mesh address of another
-- enrolled machine of the same tenant; if drawn ids are new and the addresses of parsed prefixes
-- are addresses.
pub plane_receive-IsAllowed :
    (web_token : Text) (trim_space : Text → Text) (query_unescape : Text → Option Text)
    (hash : Text → List ℕ) (parse_prefix : Text → Prefix ⊎ Text)
    (parse_endpoint : Text → Option AddrPort) (show_addr : Addr → Text)
    (real : (s : Text) (p : Prefix) → parse_prefix s ≡ inl p → IsAddr p.addr) (f : PlaneFlow)
    (datagram : List ℕ) (from : AddrPort) (now : ℕ)
    → PlaneReach web_token trim_space query_unescape hash parse_prefix parse_endpoint show_addr f
    → All
        (IsAllowed f.plane.registry.peers (take max_frame_len datagram) (unmapped from))
        (plane_receive datagram from now f.plane).0
unfolding receive
plane_receive-IsAllowed web_token trim_space query_unescape hash parse_prefix parse_endpoint
      show_addr real f datagram from now reach =
    let frame = take max_frame_len datagram in
    dispatch-IsAllowed f
      (PlaneReach-IsPlane web_token trim_space query_unescape hash parse_prefix parse_endpoint
        show_addr real reach)
      (unmapped from) now (decode frame) frame
