-- ===== src/Control/Addr/Pool.antt =====
-- Which address internal/store/addr.go finds.
use mesh2mesh.Base.{
  ltb, ◌==◌, ==_iff, Bool-cases, clash, ℕ, zero, suc, ◌+◌, ◌-◌, ◌*◌, ◌/◌, ◌%◌, ◌≤◌, ◌<◌, ◌≡◌, sym,
  ap, ◌∙◌, subst, inl, inr, Bool, true, false, Option, some, arith,
}
use mesh2mesh.Control.Addr.{
  Prefix, pow2, mask_number, contains, next_addr, set_bit, set_bits, last_addr, NextFree,
  pool_exhausted, free_addr, search, skip, next_free_addr,
}
use mesh2mesh.Control.Netip.{Addr, v4}
use native.Mathlib.Nat.{
  mul-div_cancel, div-add-mod', mul-le-mul_right, div-lt_iff_lt-mul, mul-add-div_right,
  div-eq_of_lt,
}

pow2_pos : (k : ℕ) → 0 < pow2 k
pow2_pos zero = omega arith
pow2_pos (suc k) = omega (arith, pow2_pos k)

pow2-add : (k h : ℕ) → pow2 (k + h) ≡ pow2 k * pow2 h
pow2-add zero h = ap pow2 {x = 0 + h} {y = h} (omega arith) ∙ one_times (pow2 h)
  where
    one_times : (x : ℕ) → x ≡ 1 * x
    one_times x = omega arith
pow2-add (suc k) h = grind (arith, pow2-add k h)

double : (q x : ℕ) → q * (x * 2) ≡ (q * 2) * x
double q x = grind arith

-- The bits below a multiple of a power of two are set one after the other.
set_bits_multiple : (m q : ℕ) → set_bits m (q * pow2 m) + 1 ≡ q * pow2 m + pow2 m
set_bits_multiple zero q = omega arith
set_bits_multiple (suc m) q =
    let halved : q * pow2 (suc m) ≡ (q * 2) * pow2 m = double q (pow2 m) in
    let clear : (q * 2) * pow2 m / pow2 m ≡ q * 2 = mul-div_cancel (q * 2) (pow2_pos m) in
    let even : (q * 2) * pow2 m / pow2 m % 2 ≡ 0 = omega (arith, clear) in
    let set : set_bit m ((q * 2) * pow2 m) ≡ (q * 2 + 1) * pow2 m = rw even (grind arith) in
    ap (λ n. set_bits m (set_bit m n) + 1) halved
    ∙ ap (λ n. set_bits m n + 1) set
    ∙ set_bits_multiple m (q * 2 + 1)
    ∙ grind arith

-- A range of `2 ^ h` addresses from a multiple of that, below 2 ^ 32.
module _ (h q : ℕ) where
  -- The numbers in the range, and only those, have its start when masked.
  mask_within : (r : ℕ) → r < pow2 h → mask_number h (q * pow2 h + r) ≡ q * pow2 h
  mask_within r l =
      let quotient : (q * pow2 h + r) / pow2 h ≡ q =
        mul-add-div_right (pow2_pos h) q r ∙ grind (arith, div-eq_of_lt l) in
      let split = div-add-mod' (q * pow2 h + r) (pow2 h) in
      omega (arith, split, ap (λ x. x * pow2 h) quotient)

  mask_twice : mask_number h (q * pow2 h) ≡ q * pow2 h
  mask_twice = ap (mask_number h) (plus_zero (q * pow2 h)) ∙ mask_within 0 (pow2_pos h)
    where
      plus_zero : (x : ℕ) → x ≡ x + 0
      plus_zero x = omega arith

mask_multiple : (h n : ℕ) → mask_number h n ≡ n / pow2 h * pow2 h
mask_multiple h n = omega (arith, div-add-mod' n (pow2 h))

-- The range ends by 2 ^ 32.
range_end :
    (bits h n : ℕ) → bits + h ≡ 32 → n < 4294967296 → n / pow2 h * pow2 h + pow2 h ≤ 4294967296
range_end bits h n e l =
    let whole : pow2 bits * pow2 h ≡ 4294967296 = sym (pow2-add bits h) ∙ ap pow2 e in
    let below : n / pow2 h < pow2 bits =
      (div-lt_iff_lt-mul (pow2_pos h)).1 (omega (arith, whole, l)) in
    let scaled : (n / pow2 h + 1) * pow2 h ≤ pow2 bits * pow2 h =
      mul-le-mul_right (pow2 h) (omega (arith, below)) in
    grind (arith, scaled, whole)

-- A number that the range may give: after the network's and the server's, before the broadcast
-- address, and not in use.
pub record IsHost (start size : ℕ) (used : Addr → Bool) (m : ℕ) : Type 0 where
  pub low : start + 2 ≤ m
  pub high : m + 1 < start + size
  pub unused : used (v4 m) ≡ false

-- An answer that is the lowest of them, or says that there is none.
pub data IsLowest (start size : ℕ) (used : Addr → Bool) : Option NextFree → Type 0 where
  none_left :
      ((m : ℕ) → IsHost start size used m → ⊥) → IsLowest start size used (some pool_exhausted)
  lowest :
      (a : ℕ)
      → IsHost start size used a
      → ((m : ℕ) → IsHost start size used m → a ≤ m)
      → IsLowest start size used (some (free_addr (v4 a)))

module _ (bits q last : ℕ) (used : Addr → Bool)
    (ends : last + 1 ≡ q * pow2 (32 - bits) + pow2 (32 - bits)) (below : last < 4294967296) where
  abbrev start : ℕ
  start = q * pow2 (32 - bits)

  abbrev size : ℕ
  size = pow2 (32 - bits)

  abbrev range : Prefix
  range = record { addr = v4 start; bits = bits }

  contains-within : (a : ℕ) → start ≤ a → a ≤ last → contains range (v4 a) ≡ true
  contains-within a l u =
      let split : a ≡ start + (a - start) = omega (arith, l) in
      let masks : mask_number (32 - bits) a ≡ start =
        ap (mask_number (32 - bits)) split
        ∙ mask_within (32 - bits) q (a - start) (omega (arith, l, u, ends)) in
      let own = mask_twice (32 - bits) q in ground (arith, masks, own)

  search-IsLowest :
      (fuel a : ℕ)
      → start + 2 ≤ a
      → a ≤ last
      → last - a < fuel
      → ((m : ℕ) → m < a → IsHost start size used m → ⊥)
      → IsLowest start size used (search fuel range (v4 last) used (v4 a))
  unfolding search
  search-IsLowest zero a l u f none_before = absurd (omega arith)
  search-IsLowest (suc fuel) a l u f none_before =
      let inside = contains-within a (omega (arith, l)) u in
      elim (Bool-cases (a == last)) [
        | inl end ↦
            rw (inside, end) (none_left (λ m host. none_before m (ground (arith, host.high)) host))
        | inr more ↦
            let strict : a < last = ground arith in
            elim (Bool-cases (used (v4 a))) [
              | inl taken ↦
                  let following : next_addr (v4 a) ≡ v4 (a + 1) = ground arith in
                  rw (inside, more, taken, following)
                    (search-IsLowest fuel (a + 1) (omega (arith, l)) (omega (arith, strict))
                      (omega (arith, f, u, strict))
                      (λ m before host. elim (Bool-cases (m == a)) [
                        | inl same ↦ absurd (
                            clash (sym (ap (λ x. used (v4 x)) ((==_iff m a).0 same)) ∙ host.unused)
                              taken)
                        | inr other ↦ none_before m (ground arith) host
                      ]))
              | inr free ↦
                  rw (inside, more, free)
                    (lowest a (record { low = l; high = ground arith; unused = free })
                      (λ m host. elim (Bool-cases (ltb m a)) [
                        | inl before ↦ absurd (none_before m (ground arith) host)
                        | inr after ↦ ground arith
                      ]))
            ]
      ]

mask_network : (h n : ℕ) → mask_number h (mask_number h n) ≡ n / pow2 h * pow2 h
mask_network h n = ap (mask_number h) (mask_multiple h n) ∙ mask_twice h (n / pow2 h)

four_hosts : (bits : ℕ) → bits ≤ 30 → 4 ≤ pow2 (32 - bits)
four_hosts bits wide =
    let split : 32 - bits ≡ 30 - bits + 2 = omega (arith, wide) in
    let product = ap pow2 split ∙ pow2-add (30 - bits) 2 in
    omega (arith, product, pow2_pos (30 - bits))

next_twice : (b : ℕ) → b + 2 < 4294967296 → next_addr (next_addr (v4 b)) ≡ v4 (b + 2)
next_twice b l =
    let one : (b + 1 == 4294967296) ≡ false = ground arith in
    let two : (b + 1 + 1 == 4294967296) ≡ false = ground arith in
    rw (one, two) (ap v4 (omega arith))

next_free_addr-search :
    (n bits : ℕ) (used : Addr → Bool)
    → n < 4294967296
    → bits ≤ 30
    → next_free_addr (pow2 (32 - bits)) (record { addr = v4 n; bits = bits }) used
      ≡ search
          (pow2 (32 - bits))
          (record { addr = v4 (n / pow2 (32 - bits) * pow2 (32 - bits)); bits = bits })
          (v4 (set_bits (32 - bits) (n / pow2 (32 - bits) * pow2 (32 - bits))))
          used
          (v4 (n / pow2 (32 - bits) * pow2 (32 - bits) + 2))
unfolding next_free_addr last_addr
next_free_addr-search n bits used small wide =
    let h = 32 - bits in
    let base = n / pow2 h * pow2 h in
    let four = four_hosts bits wide in
    let below = range_end bits h n (omega (arith, wide)) small in
    ap
      (λ b.
        search (pow2 h) (record { addr = v4 (mask_number h n); bits = bits }) (v4 (set_bits h b))
          used (skip 2 (v4 (mask_number h n))))
      (mask_network h n)
    ∙ ap
        (λ b.
          search (pow2 h) (record { addr = v4 b; bits = bits }) (v4 (set_bits h base)) used
            (skip 2 (v4 b)))
        (mask_multiple h n)
    ∙ ap (search (pow2 h) (record { addr = v4 base; bits = bits }) (v4 (set_bits h base)) used)
        (next_twice base (omega (arith, below, four)))

-- In an IPv4 range of at least four addresses, which is what `parseCIDR` accepts, with as much fuel
-- as the range has addresses, the search ends: with the lowest address that is not one of the first
-- two, not the last one and not in use; or with none, and then there is no such address.
pub next_free_addr-IsLowest :
    (n bits : ℕ) (used : Addr → Bool)
    → n < 4294967296
    → bits ≤ 30
    → IsLowest
        (n / pow2 (32 - bits) * pow2 (32 - bits))
        (pow2 (32 - bits))
        used
        (next_free_addr (pow2 (32 - bits)) (record { addr = v4 n; bits = bits }) used)
unfolding next_free_addr last_addr
next_free_addr-IsLowest n bits used small wide =
    let h = 32 - bits in
    let q = n / pow2 h in
    let last = set_bits h (q * pow2 h) in
    let ends = set_bits_multiple h q in
    let below = range_end bits h n (omega (arith, wide)) small in
    let four = four_hosts bits wide in
    subst (IsLowest (q * pow2 h) (pow2 h) used) (sym (next_free_addr-search n bits used small wide))
      (search-IsLowest bits q last used ends (omega (arith, ends, below)) (pow2 h) (q * pow2 h + 2)
        (omega arith) (omega (arith, ends, four)) (omega (arith, ends, four))
        (λ m before host. absurd (before_start (q * pow2 h) m before host.low)))
  where
    before_start : (b m : ℕ) → m < b + 2 → b + 2 ≤ m → ⊥
    before_start b m l u = omega arith
