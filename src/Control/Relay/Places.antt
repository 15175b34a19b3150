-- ===== src/Control/Relay/Places.antt =====
-- Where a registration puts a session in internal/relay/relay.go.
use mesh2mesh.Base.{
  ◌==◌, ==_iff, Bool-cases, clash, ℕ, ◌≡◌, refl, sym, ap, ◌∙◌, inl, inr, true, false, Option, none,
  some, List, arith,
}
use mesh2mesh.Control.Netip.{AddrPort, addr_port_eq, is_valid, addr_port_eq_iff}
use mesh2mesh.Control.Relay.{Relay, delete_if, unplace, move, see, place, registered}
use mesh2mesh.Control.Relay.Grants.{
  Grant, grant_of, Registration, delete_if-some, see-grant, see-addr,
}
use mesh2mesh.Control.Relay.Latest.{update_self, delete_if-other}
use mesh2mesh.Control.Relay.Moves.{move-grant, move-addr, move-addr_self}
use mesh2mesh.Control.Relay.Reach.{IsSound}

-- A session that is at an address, and was last seen at a time.
pub record IsAt (s : ℕ) (a : AddrPort) (seen : ℕ) (r : Relay) : Type 0 where
  pub found : r.by_addr a ≡ some s
  pub addr : (r.heap s).addr ≡ a
  pub last_seen : (r.heap s).last_seen ≡ seen

module _ (s now : ℕ) where
  pub see-last_seen : (q : Relay) → ((see s now q).heap s).last_seen ≡ now
  see-last_seen q = let own : (s == s) ≡ true = ground arith in rw own refl

  see-other : (t : ℕ) (q : Relay) → (s == t) ≡ false → (see s now q).heap t ≡ q.heap t
  see-other t q n = rw n refl

  pub see-IsAt :
      (t : ℕ) (b : AddrPort) (seen : ℕ) (q : Relay)
      → (s == t) ≡ false
      → IsAt t b seen q
      → IsAt t b seen (see s now q)
  see-IsAt t b seen q n at = record {
    found = at.found;
    addr = ap (λ v. v.addr) (see-other t q n) ∙ at.addr;
    last_seen = ap (λ v. v.last_seen) (see-other t q n) ∙ at.last_seen;
  }

module _ (issued : List Grant) (regs : List Registration) (r : Relay)
    (sound : IsSound issued regs r) (s : ℕ) (a : AddrPort) (now : ℕ) where
  place-found :
      (k : List ℕ)
      → r.by_token k ≡ some s
      → is_valid a ≡ true
      → ((place s a r).by_addr a ≡ some s) × (((place s a r).heap s).addr ≡ a)
  place-found k e v = elim (Bool-cases (addr_port_eq (r.heap s).addr a)) [
    | inl stays ↦
        let here = (addr_port_eq_iff (r.heap s).addr a).0 stays in
        rw stays (
          ap r.by_addr (sym here)
              ∙ sound.1.addr_indexed s (sound.1.token_current k s e) (ap is_valid here ∙ v),
          here,
        )
    | inr moves ↦ rw moves (
      update_self addr_port_eq addr_port_eq_iff a a (some s)
          (delete_if addr_port_eq (r.heap s).addr s r.by_addr) refl,
      move-addr_self s a r,
    )
  ]

  pub registered-IsAt :
      (k : List ℕ)
      → r.by_token k ≡ some s
      → is_valid a ≡ true
      → IsAt s a now (registered (some s) k a now r).1
  registered-IsAt k e v =
      let (found, addr) = place-found k e v in
      record {
        found = found;
        addr = see-addr s now (place s a r) s ∙ addr;
        last_seen = see-last_seen s now (place s a r);
      }

  move-last_seen :
      (t : ℕ) → (s == t) ≡ false → ((move s a r).heap t).last_seen ≡ (r.heap t).last_seen
  move-last_seen t n = rw n (unplaced (delete_if addr_port_eq (r.heap s).addr s r.by_addr a))
    where
      unplaced : (o : Option ℕ) → (unplace o r.heap t).last_seen ≡ (r.heap t).last_seen
      unplaced none = refl
      unplaced (some p) = elim (Bool-cases (p == t)) [
        | inl hit ↦ rw hit (ap (λ u. (r.heap u).last_seen) ((==_iff p t).0 hit))
        | inr miss ↦ rw miss refl
      ]

  move-IsAt :
      (t : ℕ) (b : AddrPort) (seen : ℕ)
      → (s == t) ≡ false
      → addr_port_eq a b ≡ false
      → IsAt t b seen r
      → IsAt t b seen (move s a r)
  move-IsAt t b seen n differs at = record {
    found = rw differs (
        delete_if-other addr_port_eq addr_port_eq_iff (r.heap s).addr b s t r.by_addr at.found
          (λ same. clash n ((==_iff s t).1 (sym same))));
    addr = elim (move-addr s a r t) [
      | inl (same, here) ↦ absurd (clash n ((==_iff s t).1 same))
      | inr (inl (other, was, gone)) ↦
          let held =
            (sound.0.addr_held a t
              (delete_if-some addr_port_eq (r.heap s).addr a s r.by_addr t was)).1 in
          absurd (clash differs ((addr_port_eq_iff a b).1 (sym held ∙ at.addr)))
      | inr (inr (other, kept)) ↦ kept ∙ at.addr
    ];
    last_seen = move-last_seen t n ∙ at.last_seen;
  }

  -- A registration from elsewhere leaves the others where they are.
  pub registered-IsAt_other :
      (k : List ℕ) (t : ℕ) (b : AddrPort) (seen : ℕ)
      → (s == t) ≡ false
      → addr_port_eq a b ≡ false
      → IsAt t b seen r
      → IsAt t b seen (registered (some s) k a now r).1
  registered-IsAt_other k t b seen n differs at =
      see-IsAt s now t b seen (place s a r) n (elim (Bool-cases (addr_port_eq (r.heap s).addr a)) [
        | inl stays ↦ rw stays at
        | inr moves ↦ rw moves (move-IsAt t b seen n differs at)
      ])

  pub registered-grant :
      (k : List ℕ) (t : ℕ)
      → grant_of ((registered (some s) k a now r).1.heap t) ≡ grant_of (r.heap t)
  registered-grant k t =
      see-grant s now (place s a r) t ∙ (elim (Bool-cases (addr_port_eq (r.heap s).addr a)) [
        | inl stays ↦ rw stays refl
        | inr moves ↦ rw moves (move-grant s a r t)
      ])

  pub registered-maps :
      (k : List ℕ)
      → ((registered (some s) k a now r).1.by_mesh ≡ r.by_mesh)
        × ((registered (some s) k a now r).1.by_token ≡ r.by_token)
  registered-maps k = elim (Bool-cases (addr_port_eq (r.heap s).addr a)) [
    | inl stays ↦ rw stays (refl, refl)
    | inr moves ↦ rw moves (refl, refl)
  ]
