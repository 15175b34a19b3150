-- ===== src/Control/Addr.antt =====
-- internal/store/addr.go: the next free address of a tenant's range.
pub mod Pool
use mesh2mesh.Base.{
  ◌==◌, if◌then◌else◌, ℕ, zero, suc, ◌+◌, ◌-◌, ◌*◌, ◌/◌, ◌%◌, Bool, false, not, ◌&&◌, Option, none,
  some,
}
use mesh2mesh.Control.Netip.{Addr, no_addr, v4, v6, addr_eq, is_4, bytes_bound}

-- `netip.Prefix`
pub record Prefix : Type 0 where
  pub addr : Addr
  pub bits : ℕ

abbrev pub pow2 : ℕ → ℕ
pow2 zero = 1
pow2 (suc k) = pow2 k * 2

-- The bits of an address: `BitLen`
abbrev bit_len : Addr → ℕ
bit_len no_addr = 0
bit_len (v4 n) = 32
bit_len (v6 n) = 128

abbrev pub host_bits : Prefix → ℕ
host_bits p = bit_len p.addr - p.bits

abbrev pub mask_number : ℕ → ℕ → ℕ
mask_number h n = n - n % pow2 h

abbrev mask_addr : ℕ → Addr → Addr
mask_addr h no_addr = no_addr
mask_addr h (v4 n) = v4 (mask_number h n)
mask_addr h (v6 n) = v6 (mask_number h n)

-- `Masked`
abbrev pub masked : Prefix → Prefix
masked p = record { addr = mask_addr (host_bits p) p.addr; bits = p.bits }

-- `Contains`
abbrev pub contains : Prefix → Addr → Bool
contains p no_addr = false
contains p a =
    bit_len a == bit_len p.addr
    && addr_eq (mask_addr (host_bits p) a) (mask_addr (host_bits p) p.addr)

-- `Next`: the zero address after the last one.
abbrev pub next_addr : Addr → Addr
next_addr no_addr = no_addr
next_addr (v4 n) = if n + 1 == 4294967296 then no_addr else v4 (n + 1)
next_addr (v6 n) = if n + 1 == bytes_bound 16 then no_addr else v6 (n + 1)

-- `bytes[i/8] |= 1 << (7 - i%8)`, with `m` bits after the one that is set
abbrev pub set_bit : ℕ → ℕ → ℕ
set_bit m n = if n / pow2 m % 2 == 0 then n + pow2 m else n

abbrev pub set_bits : ℕ → ℕ → ℕ
set_bits zero n = n
set_bits (suc m) n = set_bits m (set_bit m n)

-- `lastAddr(prefix)`
unfoldable pub last_addr : Prefix → Addr
last_addr p = set_all (host_bits p) (masked p).addr
  where
    set_all : ℕ → Addr → Addr
    set_all h no_addr = no_addr
    set_all h (v4 n) = v4 (set_bits h n)
    set_all h (v6 n) = v6 (set_bits h n)

-- `ErrPoolExhausted`, or an address
pub data NextFree : Type 0 where
  pool_exhausted : NextFree
  free_addr : Addr → NextFree

-- The loop of `nextFreeAddr`, which may use up its fuel.
unfoldable pub search : ℕ → Prefix → (last : Addr) → (used : Addr → Bool) → Addr → Option NextFree
search zero prefix last used addr = none
search (suc fuel) prefix last used addr =
    let rest = search fuel prefix last used (next_addr addr) in
    if not (contains prefix addr)
    then some pool_exhausted
    else if is_4 addr && addr_eq addr last
    then some pool_exhausted
    else if not (used addr)
    then some (free_addr addr)
    else if addr_eq addr last
    then some pool_exhausted
    else rest

abbrev reserved_hosts : ℕ
reserved_hosts = 2

abbrev pub skip : ℕ → Addr → Addr
skip zero a = a
skip (suc k) a = skip k (next_addr a)

-- `nextFreeAddr(prefix, used)`
unfoldable pub next_free_addr : (fuel : ℕ) → Prefix → (used : Addr → Bool) → Option NextFree
unfolding search last_addr
next_free_addr fuel p used =
    search fuel (masked p) (last_addr (masked p)) used (skip reserved_hosts (masked p).addr)
