-- ===== src/Control/Wire.antt =====
-- internal/wire/wire.go: the frames that nodes, the prober and the relay exchange over UDP.
pub mod RoundTrip
use mesh2mesh.Base.{
  length, take, drop, get_elem?, ltb, ◌==◌, if◌then◌else◌, ◌or◌, ℕ, ap, not, List, ◌∷◌, ◌++◌,
}
use mesh2mesh.Control.Netip.{v6, AddrPort, unmap, as_16, to_bytes, of_bytes}

abbrev pub version : ℕ
version = 0

abbrev pub type_probe : ℕ
type_probe = 1

abbrev pub type_probe_reply : ℕ
type_probe_reply = 2

abbrev pub type_binding_request : ℕ
type_binding_request = 3

abbrev pub type_binding_response : ℕ
type_binding_response = 4

abbrev pub type_relay_register : ℕ
type_relay_register = 5

abbrev pub type_relay_ack : ℕ
type_relay_ack = 6

abbrev pub type_relay_data : ℕ
type_relay_data = 7

abbrev pub relay_token_len : ℕ
relay_token_len = 16

abbrev pub header_len : ℕ
header_len = 4

abbrev pub relay_header_len : ℕ
relay_header_len = 8

abbrev pub nonce_len : ℕ
nonce_len = 16

abbrev pub addr_port_len : ℕ
addr_port_len = 18

abbrev pub binding_len : ℕ
binding_len = 34

abbrev pub max_frame_len : ℕ
max_frame_len = 2048

-- `Encode(dst, typ, payload)`, which overwrites what `dst` held.
unfoldable pub encode : (dst : List ℕ) (type : ℕ) (payload : List ℕ) → List ℕ
encode dst type payload = version ∷ type ∷ 0 ∷ 0 ∷ payload

pub data FrameError : Type 0 where
  short_frame : FrameError
  bad_version : (found : ℕ) → FrameError

pub data Decoded : Type 0 where
  decoded : (type : ℕ) (payload : List ℕ) → Decoded
  malformed : FrameError → Decoded

-- `buf[i]`, below the length of `buf`
abbrev byte_at : List ℕ → ℕ → ℕ
byte_at buf i = get_elem? buf i or 0

unfoldable pub decode : List ℕ → Decoded
decode buf =
    if ltb (length buf) header_len
    then malformed short_frame
    else if not (byte_at buf 0 == version)
    then malformed (bad_version (byte_at buf 0))
    else decoded (byte_at buf 1) (drop header_len buf)

-- `AppendAddrPort` and `ParseAddrPort`
unfoldable pub append_addr_port : List ℕ → AddrPort → List ℕ
append_addr_port dst ap = (dst ++ to_bytes 16 (as_16 ap.ip)) ++ to_bytes 2 ap.port

pub parse_addr_port : List ℕ → AddrPort
parse_addr_port b = record {
  ip = unmap (v6 (of_bytes (take 16 b)));
  port = of_bytes (drop 16 (take addr_port_len b));
}
