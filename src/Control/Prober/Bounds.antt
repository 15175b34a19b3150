-- ===== src/Control/Prober/Bounds.antt =====
-- How much internal/prober/prober.go, and internal/relay/relay.go behind it, send for a datagram.
use mesh2mesh.Base.{
  length, take, drop, length-append, ltb, leb, ◌==◌, Bool-cases, ℕ, zero, suc, ◌+◌, ◌≤◌, ◌≡◌, refl,
  ap, inl, inr, ◌||◌, Option, none, some, List, [], ◌∷◌, ◌++◌, arith,
}
use mesh2mesh.Control.Netip.{Addr, no_addr, v4, v6, AddrPort, as_16, to_bytes, length-to_bytes}
use mesh2mesh.Control.Prober.{Prober, answer_binding, to_relay, dispatch, unmapped, receive}
use mesh2mesh.Control.Relay.{
  Relay, live, Datagram, see, registered, register, as_4, destination, pass_on, forward_from,
  forward, handle_decoded, handle_frame,
}
use mesh2mesh.Control.Relay.Reach.{unreachable}
use mesh2mesh.Control.Wire.{
  version, type_probe_reply, type_binding_request, type_binding_response, type_relay_register,
  type_relay_data, relay_token_len, header_len, relay_header_len, nonce_len, addr_port_len,
  binding_len, max_frame_len, encode, Decoded, decoded, malformed, decode, append_addr_port,
}
use mesh2mesh.Control.Wire.RoundTrip.{decode_iff}

abbrev pub sent_bytes : List Datagram → ℕ
sent_bytes [] = 0
sent_bytes (d ∷ ds) = length d.frame + sent_bytes ds

length-take_le : {A : Type 0} (n : ℕ) (xs : List A) → length (take n xs) ≤ length xs
length-take_le zero xs = omega arith
length-take_le (suc n) [] = omega arith
length-take_le (suc n) (x ∷ xs) = omega (arith, length-take_le n xs)

pub length-take : {A : Type 0} (n : ℕ) (xs : List A) → n ≤ length xs → length (take n xs) ≡ n
length-take zero xs l = refl
length-take (suc n) [] l = absurd (omega (arith, l))
length-take (suc n) (x ∷ xs) l = omega (arith, length-take n xs (omega (arith, l)))

length-drop :
    {A : Type 0} (n : ℕ) (xs : List A) → n ≤ length xs → length (drop n xs) + n ≡ length xs
length-drop zero xs l = omega arith
length-drop (suc n) [] l = absurd (omega (arith, l))
length-drop (suc n) (x ∷ xs) l = omega (arith, length-drop n xs (omega (arith, l)))

frame-length :
    (buf : List ℕ) (type : ℕ) (payload : List ℕ)
    → decode buf ≡ decoded type payload
    → length buf ≡ length payload + 4
frame-length buf type payload e =
    let (a, b, parts) = (decode_iff [] buf type payload).0.0 e in omega (arith, ap length parts)

length-append_addr_port :
    (dst : List ℕ) (a : AddrPort) → length (append_addr_port dst a) ≡ length dst + addr_port_len
unfolding append_addr_port
length-append_addr_port dst a =
    let outer = length-append (dst ++ to_bytes 16 (as_16 a.ip)) (to_bytes 2 a.port) in
    let inner = length-append dst (to_bytes 16 (as_16 a.ip)) in
    omega (arith, outer, inner, length-to_bytes 16 (as_16 a.ip), length-to_bytes 2 a.port)

answer_binding-bytes :
    (payload : List ℕ) (src : AddrPort)
    → sent_bytes (answer_binding payload src) ≤ length payload + 4
unfolding answer_binding encode
answer_binding-bytes payload src = elim (Bool-cases (ltb (length payload) binding_len)) [
  | inl short ↦ rw short (omega arith)
  | inr long ↦
      let enough : binding_len ≤ length payload = ground arith in
      let nonce = length-take nonce_len payload (omega (arith, enough)) in
      let whole =
        length-append_addr_port (version ∷ type_binding_response ∷ 0 ∷ 0 ∷ take nonce_len payload)
          src in
      rw long (omega (arith, whole, nonce, enough))
]

module _ (src : AddrPort) (now : ℕ) where
  registered-bytes :
      (o : Option ℕ) (token : List ℕ) (r : Relay)
      → sent_bytes (registered o token src now r).0 ≤ length token + 4
  unfolding encode
  registered-bytes none token r = omega arith
  registered-bytes (some s) token r = omega arith

  register-bytes :
      (payload : List ℕ) (r : Relay)
      → sent_bytes (register payload src now r).0 ≤ length payload + 4
  unfolding register
  register-bytes payload r = elim (Bool-cases (ltb (length payload) relay_token_len)) [
    | inl short ↦ rw short (omega arith)
    | inr long ↦
        let token = take relay_token_len payload in
        let sent = registered-bytes (r.by_token token) token r in
        rw long (omega (arith, sent, length-take_le relay_token_len payload))
  ]

  length-as_4 : (a : Addr) → length (as_4 a) ≤ 4
  length-as_4 no_addr = omega arith
  length-as_4 (v4 n) = omega (arith, length-to_bytes 4 n)
  length-as_4 (v6 n) = omega arith

  pass_on-bytes :
      (from : ℕ) (o : Option ℕ) (frame : List ℕ) (r : Relay)
      → relay_header_len ≤ length frame
      → sent_bytes (pass_on from o frame r) ≤ length frame
  pass_on-bytes from none frame r l = omega arith
  pass_on-bytes from (some to) frame r l =
      let ip = as_4 (r.heap from).mesh_ip in
      let outer = length-append (take header_len frame) (ip ++ drop relay_header_len frame) in
      let inner = length-append ip (drop relay_header_len frame) in
      let head = length-take header_len frame (omega (arith, l)) in
      let tail = length-drop relay_header_len frame l in
      omega (arith, outer, inner, head, tail, length-as_4 (r.heap from).mesh_ip)

  forward_from-bytes :
      (o : Option ℕ) (frame : List ℕ) (r : Relay)
      → relay_header_len ≤ length frame
      → sent_bytes (forward_from o frame now r).0 ≤ length frame
  forward_from-bytes none frame r l = omega arith
  forward_from-bytes (some from) frame r l = elim (Bool-cases (unreachable from frame now r)) [
    | inl u ↦ rw u (omega arith)
    | inr u ↦
        let r' = see from now r in
        rw u
          (pass_on-bytes from (r'.by_mesh ((r'.heap from).tenant_id, destination frame)) frame r' l)
  ]

  forward-bytes :
      (frame : List ℕ) (r : Relay) → sent_bytes (forward frame src now r).0 ≤ length frame
  unfolding forward
  forward-bytes frame r = elim (Bool-cases (leb (length frame) relay_header_len)) [
    | inl short ↦ rw short (omega arith)
    | inr long ↦
        let enough : relay_header_len ≤ length frame = ground arith in
        elim (Bool-cases (live r (r.by_addr src) now)) [
          | inl l ↦ rw (long, l) (forward_from-bytes (r.by_addr src) frame r enough)
          | inr l ↦ rw (long, l) (omega arith)
        ]
  ]

  handle_decoded-bytes :
      (d : Decoded) (frame : List ℕ) (r : Relay)
      → decode frame ≡ d
      → sent_bytes (handle_decoded d frame src now r).0 ≤ length frame
  handle_decoded-bytes (malformed e) frame r f = omega arith
  handle_decoded-bytes (decoded type payload) frame r f =
      elim (Bool-cases (type == type_relay_register)) [
        | inl t ↦ rw t (omega (arith, register-bytes payload r, frame-length frame type payload f))
        | inr n ↦ elim (Bool-cases (type == type_relay_data)) [
          | inl t ↦ rw (n, t) (forward-bytes frame r)
          | inr m ↦ rw (n, m) (omega arith)
        ]
      ]

  to_relay-bytes :
      (o : Option Relay) (frame : List ℕ) (p : Prober)
      → sent_bytes (to_relay o frame src now p).0 ≤ length frame
  unfolding handle_frame
  to_relay-bytes none frame p = omega arith
  to_relay-bytes (some relay) frame p = handle_decoded-bytes (decode frame) frame relay refl

  dispatch-bytes :
      (d : Decoded) (frame : List ℕ) (p : Prober)
      → decode frame ≡ d
      → sent_bytes (dispatch d frame src now p).0 ≤ length frame
  dispatch-bytes (malformed e) frame p f = omega arith
  dispatch-bytes (decoded type payload) frame p f =
      elim (Bool-cases (type == type_binding_request)) [
        | inl binding ↦
            let sent = answer_binding-bytes payload src in
            rw binding (omega (arith, sent, frame-length frame type payload f))
        | inr no_binding ↦
            elim (Bool-cases (type == type_relay_register || type == type_relay_data)) [
              | inl relayed ↦ rw (no_binding, relayed) (to_relay-bytes p.relay frame p)
              | inr not_relayed ↦ elim (Bool-cases (type == type_probe_reply)) [
                | inl reply ↦ rw (no_binding, not_relayed, reply) (omega arith)
                | inr other ↦ rw (no_binding, not_relayed, other) (omega arith)
              ]
            ]
      ]

-- For a datagram, whatever it is and whatever the state, the prober and its relay together send at
-- most as many bytes as it has.
pub receive-bytes :
    (datagram : List ℕ) (from : AddrPort) (now : ℕ) (p : Prober)
    → sent_bytes (receive datagram from now p).0 ≤ length datagram
unfolding receive
receive-bytes datagram from now p =
    let frame = take max_frame_len datagram in
    omega (
      arith,
      dispatch-bytes (unmapped from) now (decode frame) frame p refl,
      length-take_le max_frame_len datagram,
    )
