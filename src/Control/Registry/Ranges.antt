-- ===== src/Control/Registry/Ranges.antt =====
-- The ranges of tenants, and the addresses that internal/store/addr.go gives of them.
use mesh2mesh.Base.{ℕ, ◌*◌, ◌/◌, ◌≤◌, ◌<◌, ◌≡◌, refl, Bool, true, false, Option, some}
use mesh2mesh.Control.Addr.{
  Prefix, pow2, host_bits, NextFree, pool_exhausted, free_addr, next_free_addr,
}
use mesh2mesh.Control.Addr.Pool.{IsHost, IsLowest, none_left, lowest, next_free_addr-IsLowest}
use mesh2mesh.Control.Netip.{Addr, no_addr, v4, v6, is_4}

-- A range of at least four IPv4 addresses, as `parseCIDR` accepts it.
abbrev RangeOf : Addr → ℕ → Type 0
RangeOf (v4 n) bits = (n < 4294967296) × (bits ≤ 30)
RangeOf _ bits = ⊥

abbrev pub IsRange : Prefix → Type 0
IsRange p = RangeOf p.addr p.bits

abbrev number_of : Addr → ℕ
number_of no_addr = 0
number_of (v4 n) = n
number_of (v6 n) = n

abbrev range_size : Prefix → ℕ
range_size p = pow2 (host_bits p)

abbrev range_start : Prefix → ℕ
range_start p = number_of p.addr / range_size p * range_size p

-- An address that the range may give, given those in use.
abbrev pub IsFree : Prefix → (used : Addr → Bool) → Addr → Type 0
IsFree p used (v4 m) = IsHost (range_start p) (range_size p) used m
IsFree p used _ = ⊥

-- An address of the range that is neither one of the first two nor the last one.
abbrev pub IsInside : Prefix → Addr → Type 0
IsInside p ip = IsFree p (λ a. false) ip

-- The lowest one that the range may give.
abbrev pub IsLowestFree : Prefix → (used : Addr → Bool) → Addr → Type 0
IsLowestFree p used ip =
    IsFree p used ip × ((a : Addr) → IsFree p used a → number_of ip ≤ number_of a)

pub data IsSearched (p : Prefix) (used : Addr → Bool) : Option NextFree → Type 0 where
  all_used : ((a : Addr) → IsFree p used a → ⊥) → IsSearched p used (some pool_exhausted)
  lowest_free : (ip : Addr) → IsLowestFree p used ip → IsSearched p used (some (free_addr ip))

module _ (n bits : ℕ) (used : Addr → Bool) where
  abbrev range : Prefix
  range = record { addr = v4 n; bits = bits }

  searched :
      {o : Option NextFree}
      → IsLowest (range_start range) (range_size range) used o
      → IsSearched range used o
  searched (none_left h) = all_used none_free
    where
      none_free : (a : Addr) → IsFree range used a → ⊥
      none_free no_addr f = elim f [ ]
      none_free (v6 m) f = elim f [ ]
      none_free (v4 m) f = h m f
  searched (lowest a host least) = lowest_free (v4 a) (host, below)
    where
      below : (b : Addr) → IsFree range used b → a ≤ number_of b
      below no_addr f = elim f [ ]
      below (v6 m) f = elim f [ ]
      below (v4 m) f = least m f

pub search-IsSearched :
    (p : Prefix) (used : Addr → Bool)
    → IsRange p
    → IsSearched p used (next_free_addr (range_size p) p used)
search-IsSearched p used h = in_range p.addr p.bits h
  where
    in_range :
        (a : Addr) (bits : ℕ)
        → RangeOf a bits
        → let p : Prefix = record { addr = a; bits = bits } in
          IsSearched p used (next_free_addr (range_size p) p used)
    in_range no_addr bits h = elim h [ ]
    in_range (v6 n) bits h = elim h [ ]
    in_range (v4 n) bits h = searched n bits used (next_free_addr-IsLowest n bits used h.0 h.1)

pub free-IsInside : (p : Prefix) (used : Addr → Bool) (ip : Addr) → IsFree p used ip → IsInside p ip
free-IsInside p used no_addr h = elim h [ ]
free-IsInside p used (v6 m) h = elim h [ ]
free-IsInside p used (v4 m) h = record { low = h.low; high = h.high; unused = refl }

pub free-unused : (p : Prefix) (used : Addr → Bool) (ip : Addr) → IsFree p used ip → used ip ≡ false
free-unused p used no_addr h = elim h [ ]
free-unused p used (v6 m) h = elim h [ ]
free-unused p used (v4 m) h = h.unused

pub inside-is_4 : (p : Prefix) (ip : Addr) → IsInside p ip → is_4 ip ≡ true
inside-is_4 p no_addr h = elim h [ ]
inside-is_4 p (v6 m) h = elim h [ ]
inside-is_4 p (v4 m) h = refl
