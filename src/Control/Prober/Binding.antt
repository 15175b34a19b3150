-- ===== src/Control/Prober/Binding.antt =====
-- What internal/prober/prober.go tells a machine of its address.
use mesh2mesh.Base.{
  length, take, drop, take-append, drop-append, ltb, ◌==◌, Bool-cases, ℕ, ◌/◌, ◌≤◌, ◌<◌, ◌≡◌, refl,
  ap, ◌∙◌, subst, inl, inr, List, [], ◌∷◌, ◌++◌, append_assoc, arith,
}
use mesh2mesh.Control.Netip.{Addr, no_addr, v4, v6, AddrPort, unmap, as_16, to_bytes}
use mesh2mesh.Control.Prober.{Prober, answer_binding, unmapped, receive}
use mesh2mesh.Control.Prober.Bounds.{length-take}
use mesh2mesh.Control.Relay.{Datagram}
use mesh2mesh.Control.Wire.{
  type_binding_request, type_binding_response, nonce_len, binding_len, max_frame_len, encode,
  decoded, decode, append_addr_port, parse_addr_port,
}
use mesh2mesh.Control.Wire.RoundTrip.{decode_iff, IsAddr, parse_addr_port-append_addr_port}

-- An answer to a binding request with that payload, from that source.
pub record IsBindingAnswer (payload : List ℕ) (from : AddrPort) (d : Datagram) : Type 0 where
  pub told_source : d.to ≡ unmapped from
  pub body : List ℕ
  pub is_frame : decode d.frame ≡ decoded type_binding_response body
  pub same_nonce : take nonce_len body ≡ take nonce_len payload
  pub tells : parse_addr_port (drop nonce_len body) ≡ unmapped from

-- None to a request that is shorter than an answer, and else one.
pub data IsTold (payload : List ℕ) (from : AddrPort) : List Datagram → Type 0 where
  too_short : length payload < binding_len → IsTold payload from []
  told :
      (d : Datagram)
      → binding_len ≤ length payload
      → IsBindingAnswer payload from d
      → IsTold payload from (d ∷ [])

unmap-IsAddr : (a : Addr) → IsAddr a → IsAddr (unmap a)
unmap-IsAddr no_addr h = elim h [ ]
unmap-IsAddr (v4 n) h = h
unmap-IsAddr (v6 n) h = elim (Bool-cases (n / 4294967296 == 65535)) [
  | inl mapped ↦ rw mapped (omega arith)
  | inr plain ↦ rw plain h
]

unmap-twice : (a : Addr) → unmap (unmap a) ≡ unmap a
unmap-twice no_addr = refl
unmap-twice (v4 n) = refl
unmap-twice (v6 n) = elim (Bool-cases (n / 4294967296 == 65535)) [
  | inl mapped ↦ rw mapped refl
  | inr plain ↦ rw (plain, plain) refl
]

answer_body :
    (nonce : List ℕ) (a : AddrPort) (type : ℕ)
    → append_addr_port (encode [] type nonce) a ≡ encode [] type (nonce ++ append_addr_port [] a)
unfolding append_addr_port encode
answer_body nonce a type =
    ap (λ b. 0 ∷ type ∷ 0 ∷ 0 ∷ b)
      (append_assoc nonce (to_bytes 16 (as_16 a.ip)) (to_bytes 2 a.port))

answer_binding-IsTold :
    (payload : List ℕ) (from : AddrPort)
    → IsAddr from.ip
    → from.port < 65536
    → IsTold payload from (answer_binding payload (unmapped from))
unfolding answer_binding
answer_binding-IsTold payload from real small =
    elim (Bool-cases (ltb (length payload) binding_len)) [
      | inl short ↦ rw short (too_short (ground arith))
      | inr long ↦
          let enough : binding_len ≤ length payload = ground arith in
          let nonce = take nonce_len payload in
          let src = unmapped from in
          let sixteen = length-take nonce_len payload (omega (arith, enough)) in
          let written = append_addr_port [] src in
          let read = parse_addr_port-append_addr_port src (unmap-IsAddr from.ip real) small in
          rw long (
            told _ enough (record {
              told_source = refl;
              body = nonce ++ written;
              is_frame =
                  ap decode (answer_body nonce src type_binding_response)
                  ∙ (decode_iff [] [] type_binding_response (nonce ++ written)).1;
              same_nonce =
                  subst (λ k. take k (nonce ++ written) ≡ nonce) sixteen
                    (take-append nonce written);
              tells =
                  ap parse_addr_port (
                    subst (λ k. drop k (nonce ++ written) ≡ written) sixteen
                      (drop-append nonce written))
                  ∙ read.1
                  ∙ ap (λ x. record { ip = x; port = from.port }) (unmap-twice from.ip);
            }))
    ]

-- A binding request from an address and a port, where its payload is as long as an answer's, gets
-- one answer: to where it came from, with its nonce, and with that address and port, which the
-- reader of `ParseAddrPort` finds in it, an IPv4 address as such. A shorter request gets none.
-- Neither changes the prober.
pub receive-IsTold :
    (datagram payload : List ℕ) (from : AddrPort) (now : ℕ) (p : Prober)
    → decode (take max_frame_len datagram) ≡ decoded type_binding_request payload
    → IsAddr from.ip
    → from.port < 65536
    → IsTold payload from (receive datagram from now p).0 × ((receive datagram from now p).1 ≡ p)
unfolding receive
receive-IsTold datagram payload from now p frame real small =
    rw frame (answer_binding-IsTold payload from real small, refl)
