-- ===== src/Control/Wire/RoundTrip.antt =====
-- What is read of the frames and addresses that internal/wire/wire.go writes.
use mesh2mesh.Base.{
  length, take, drop, length-append, take-append, drop-append, take-length, ℕ, ◌+◌, ◌<◌, ◌≡◌, refl,
  ap, ◌∙◌, subst, ◌↔◌, List, [], ◌∷◌, ◌++◌, arith,
}
use mesh2mesh.Control.Netip.{
  Addr, no_addr, v4, v6, AddrPort, unmap, as_16, to_bytes, length-to_bytes, bytes_bound,
  of_bytes-to_bytes,
}
use mesh2mesh.Control.Wire.{
  version, addr_port_len, encode, decoded, decode, append_addr_port, parse_addr_port,
}

decoded-frame :
    (buf : List ℕ) (type : ℕ) (payload : List ℕ)
    → decode buf ≡ decoded type payload
    → (a : ℕ) × (b : ℕ) × (buf ≡ version ∷ type ∷ a ∷ b ∷ payload)
unfolding decode
decoded-frame [] type payload h = (0, 0, ground arith)
decoded-frame (x ∷ []) type payload h = (0, 0, ground arith)
decoded-frame (x ∷ y ∷ []) type payload h = (0, 0, ground arith)
decoded-frame (x ∷ y ∷ a ∷ []) type payload h = (0, 0, ground arith)
decoded-frame (x ∷ y ∷ a ∷ b ∷ buf) type payload h = (a, b, ground arith)

frame-decoded :
    (buf : List ℕ) (type : ℕ) (payload : List ℕ)
    → ((a : ℕ) × (b : ℕ) × (buf ≡ version ∷ type ∷ a ∷ b ∷ payload))
    → decode buf ≡ decoded type payload
unfolding decode
frame-decoded buf type payload (a, b, e) = rw e (ground arith)

-- A datagram is taken for a frame of a type and a payload exactly if it has the version, the type,
-- any two bytes and then the payload; what `Encode` writes is one, whatever the buffer held.
pub decode_iff :
    (dst buf : List ℕ) (type : ℕ) (payload : List ℕ)
    → ((decode buf ≡ decoded type payload)
        ↔ ((a : ℕ) × (b : ℕ) × (buf ≡ version ∷ type ∷ a ∷ b ∷ payload)))
      × (decode (encode dst type payload) ≡ decoded type payload)
unfolding decode encode
decode_iff dst buf type payload =
    ((decoded-frame buf type payload, frame-decoded buf type payload), ground arith)

-- `As16`'s number of an address is below 2 ^ 128.
abbrev pub IsAddr : Addr → Type 0
IsAddr no_addr = ⊥
IsAddr (v4 n) = n < 4294967296
IsAddr (v6 n) = n < bytes_bound 16

parts :
    (n m : ℕ) (xs bs : List ℕ)
    → length xs ≡ n
    → length bs ≡ m
    → (length (xs ++ bs) ≡ n + m)
      × (take n (xs ++ bs) ≡ xs)
      × (drop n (take (n + m) (xs ++ bs)) ≡ bs)
parts n m xs bs e f = (
  length-append xs bs ∙ omega (arith, e, f),
  rw (← e) (take-append xs bs),
  subst (λ k. drop n (take k (xs ++ bs)) ≡ bs) (length-append xs bs ∙ omega (arith, e, f))
      (rw (take-length (xs ++ bs), ← e) (drop-append xs bs)),
)

as_16-unmap : (a : Addr) → IsAddr a → (as_16 a < bytes_bound 16) × (unmap (v6 (as_16 a)) ≡ unmap a)
as_16-unmap no_addr h = elim h [ ]
as_16-unmap (v4 n) h = (omega arith, ground arith)
as_16-unmap (v6 n) h = (h, refl)

-- An address and port of 18 bytes is read back as it was written, an IPv4 address that is written
-- as an IPv6 one included; IPv6 addresses for IPv4 ones come back as these.
pub parse_addr_port-append_addr_port :
    (ap : AddrPort)
    → IsAddr ap.ip
    → ap.port < 65536
    → (length (append_addr_port [] ap) ≡ addr_port_len)
      × (parse_addr_port (append_addr_port [] ap) ≡ record { ip = unmap ap.ip; port = ap.port })
unfolding append_addr_port parse_addr_port
parse_addr_port-append_addr_port ap h k =
    let (len, ip, port) =
      parts 16 2 (to_bytes 16 (as_16 ap.ip)) (to_bytes 2 ap.port) (length-to_bytes 16 (as_16 ap.ip))
        (length-to_bytes 2 ap.port) in
    let (small, same) = as_16-unmap ap.ip h in
    (
      len,
      rw (ip, port, of_bytes-to_bytes 16 (as_16 ap.ip) small, of_bytes-to_bytes 2 ap.port k, same)
          refl,
    )
