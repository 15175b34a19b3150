-- ===== src/Control/Netip.antt =====
-- `net/netip` as internal/wire, internal/relay and internal/store use it: addresses and ports by
-- value, without IPv6 zones.
use mesh2mesh.Base.{
  length, length-append, ◌==◌, if◌then◌else◌, ℕ, zero, suc, ◌+◌, ◌*◌, ◌/◌, ◌%◌, ◌<◌, ◌≡◌, refl, ◌∙◌,
  ◌↔◌, Bool, true, false, not, ◌&&◌, List, [], ◌∷◌, ◌++◌, arith,
}

-- An address is its number, or the zero `Addr`, which is not valid.
pub data Addr : Type 0 where
  no_addr : Addr
  v4 : (number : ℕ) → Addr
  v6 : (number : ℕ) → Addr

pub record AddrPort : Type 0 where
  pub ip : Addr
  pub port : ℕ

-- `==` on the two types
abbrev pub addr_eq : Addr → Addr → Bool
addr_eq no_addr no_addr = true
addr_eq (v4 a) (v4 b) = a == b
addr_eq (v6 a) (v6 b) = a == b
addr_eq _ _ = false

abbrev pub addr_port_eq : AddrPort → AddrPort → Bool
addr_port_eq a b = addr_eq a.ip b.ip && a.port == b.port

abbrev pub no_addr_port : AddrPort
no_addr_port = record { ip = no_addr; port = 0 }

-- `IsValid`
abbrev pub is_valid : AddrPort → Bool
is_valid a = not (addr_eq a.ip no_addr)

abbrev pub is_4 : Addr → Bool
is_4 (v4 a) = true
is_4 _ = false

-- `Unmap`: an IPv4-mapped IPv6 address is the IPv4 address.
abbrev pub unmap : Addr → Addr
unmap (v6 n) = if n / 4294967296 == 65535 then v4 (n % 4294967296) else v6 n
unmap a = a

-- The number of an address as 16 bytes: `As16`, and `AddrFrom16`.
abbrev pub as_16 : Addr → ℕ
as_16 no_addr = 0
as_16 (v4 n) = 65535 * 4294967296 + n
as_16 (v6 n) = n

pub addr_eq_iff : (a b : Addr) → (addr_eq a b ≡ true) ↔ (a ≡ b)
addr_eq_iff no_addr no_addr = ground arith
addr_eq_iff no_addr (v4 b) = ground arith
addr_eq_iff no_addr (v6 b) = ground arith
addr_eq_iff (v4 a) no_addr = ground arith
addr_eq_iff (v4 a) (v4 b) = ground arith
addr_eq_iff (v4 a) (v6 b) = ground arith
addr_eq_iff (v6 a) no_addr = ground arith
addr_eq_iff (v6 a) (v4 b) = ground arith
addr_eq_iff (v6 a) (v6 b) = ground arith

pub addr_port_eq_iff : (a b : AddrPort) → (addr_port_eq a b ≡ true) ↔ (a ≡ b)
addr_port_eq_iff a b = ground (arith, addr_eq_iff a.ip b.ip)

-- Bytes, the high one first: `encoding/binary.BigEndian`, and the arrays of addresses.
pub to_bytes : ℕ → ℕ → List ℕ
to_bytes zero n = []
to_bytes (suc k) n = to_bytes k (n / 256) ++ (n % 256) ∷ []

abbrev of_bytes_from : ℕ → List ℕ → ℕ
of_bytes_from acc [] = acc
of_bytes_from acc (b ∷ bs) = of_bytes_from (acc * 256 + b) bs

pub of_bytes : List ℕ → ℕ
of_bytes bs = of_bytes_from 0 bs

pub length-to_bytes : (k n : ℕ) → length (to_bytes k n) ≡ k
unfolding to_bytes
length-to_bytes zero n = refl
length-to_bytes (suc k) n =
    length-append (to_bytes k (n / 256)) ((n % 256) ∷ [])
    ∙ omega (arith, length-to_bytes k (n / 256))

of_bytes_from-snoc :
    (acc : ℕ) (bs : List ℕ) (b : ℕ)
    → of_bytes_from acc (bs ++ b ∷ []) ≡ of_bytes_from acc bs * 256 + b
of_bytes_from-snoc acc [] b = refl
of_bytes_from-snoc acc (c ∷ bs) b = of_bytes_from-snoc (acc * 256 + c) bs b

-- `k` bytes hold the numbers below 256 ^ k, and of others the remainder.
abbrev pub bytes_bound : ℕ → ℕ
bytes_bound zero = 1
bytes_bound (suc k) = bytes_bound k * 256

pub of_bytes-to_bytes : (k n : ℕ) → n < bytes_bound k → of_bytes (to_bytes k n) ≡ n
unfolding of_bytes to_bytes
of_bytes-to_bytes zero n h = omega arith
of_bytes-to_bytes (suc k) n h =
    of_bytes_from-snoc 0 (to_bytes k (n / 256)) (n % 256)
    ∙ omega (arith, of_bytes-to_bytes k (n / 256))
