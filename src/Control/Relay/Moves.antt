-- ===== src/Control/Relay/Moves.antt =====
-- What a session's move to another address changes in internal/relay/relay.go.
use mesh2mesh.Base.{
  ◌==◌, ==_iff, Bool-cases, clash, ℕ, ◌<◌, ◌≡◌, refl, sym, ap, ◌∙◌, subst, ◌⊎◌, inl, inr, true,
  false, Option, none, some, List, arith,
}
use mesh2mesh.Control.Netip.{AddrPort, addr_port_eq, no_addr_port, is_valid, addr_port_eq_iff}
use mesh2mesh.Control.Relay.{RelaySession, Relay, delete_if, unplace, move}
use mesh2mesh.Control.Relay.Grants.{
  grant_of, Registration, IsKept, delete_if-some, registered_at, some_injective,
}
use mathlib.Core.List.{Memᴰ}

-- A session that is moved: what the heap holds afterwards.
unplace-grant :
    (p : Option ℕ) (heap : ℕ → RelaySession) (t : ℕ)
    → grant_of (unplace p heap t) ≡ grant_of (heap t)
unplace-grant none heap t = refl
unplace-grant (some p) heap t = elim (Bool-cases (p == t)) [
  | inl hit ↦ rw hit (ap (λ u. grant_of (heap u)) ((==_iff p t).0 hit))
  | inr miss ↦ rw miss refl
]

unplace-addr :
    (p : Option ℕ) (heap : ℕ → RelaySession) (t : ℕ)
    → ((p ≡ some t) × ((unplace p heap t).addr ≡ no_addr_port))
      ⊎ ((unplace p heap t).addr ≡ (heap t).addr)
unplace-addr none heap t = inr refl
unplace-addr (some p) heap t = elim (Bool-cases (p == t)) [
  | inl hit ↦ inl (ap some ((==_iff p t).0 hit), rw hit refl)
  | inr miss ↦ inr (rw miss refl)
]

-- Who was at the address before.
abbrev before : ℕ → AddrPort → Relay → Option ℕ
before s src r = delete_if addr_port_eq (r.heap s).addr s r.by_addr src

pub move-grant :
    (s : ℕ) (src : AddrPort) (r : Relay) (t : ℕ)
    → grant_of ((move s src r).heap t) ≡ grant_of (r.heap t)
move-grant s src r t = elim (Bool-cases (s == t)) [
  | inl hit ↦
      rw hit (
        unplace-grant (before s src r) r.heap s
        ∙ ap (λ u. grant_of (r.heap u)) ((==_iff s t).0 hit))
  | inr miss ↦ rw miss (unplace-grant (before s src r) r.heap t)
]

-- A session's address after the move: the new one for the session that moved, none for the one that
-- had it before.
pub move-addr :
    (s : ℕ) (src : AddrPort) (r : Relay) (t : ℕ)
    → ((s ≡ t) × (((move s src r).heap t).addr ≡ src))
      ⊎ (((s == t) ≡ false)
          × (before s src r ≡ some t)
          × (((move s src r).heap t).addr ≡ no_addr_port))
      ⊎ (((s == t) ≡ false) × (((move s src r).heap t).addr ≡ (r.heap t).addr))
move-addr s src r t = elim (Bool-cases (s == t)) [
  | inl hit ↦ inl ((==_iff s t).0 hit, rw hit refl)
  | inr miss ↦ elim (unplace-addr (before s src r) r.heap t) [
    | inl (was, gone) ↦ inr (inl (miss, was, rw miss gone))
    | inr same ↦ inr (inr (miss, rw miss same))
  ]
]

pub move-addr_before :
    (s : ℕ) (src : AddrPort) (r : Relay) (t : ℕ)
    → (s == t) ≡ false
    → delete_if addr_port_eq (r.heap s).addr s r.by_addr src ≡ some t
    → ((move s src r).heap t).addr ≡ no_addr_port
move-addr_before s src r t other was =
    let own : (t == t) ≡ true = ground arith in
    let gone : (unplace (some t) r.heap t).addr ≡ no_addr_port = rw own refl in
    rw other (ap (λ o. (unplace o r.heap t).addr) was ∙ gone)

pub move-addr_self : (s : ℕ) (src : AddrPort) (r : Relay) → ((move s src r).heap s).addr ≡ src
move-addr_self s src r = let own : (s == s) ≡ true = ground arith in rw own refl

module _ (regs : List Registration) where
  pub move-IsKept :
      (s : ℕ) (src : AddrPort) (r : Relay)
      → s < r.fresh
      → Memᴰ (src, (r.heap s).token) regs
      → IsKept regs r
      → IsKept regs (move s src r)
  move-IsKept s src r l m h = record {
    placed = λ t p. elim (move-addr s src r t) [
      | inl (same, here) ↦
          registered_at regs ((move s src r).heap t) src (r.heap s).token here
            (ap (λ g. g.token) (move-grant s src r t) ∙ ap (λ u. (r.heap u).token) (sym same)) m
      | inr (inl (other, was, gone)) ↦ absurd (clash refl (ap is_valid (sym gone) ∙ p))
      | inr (inr (other, kept)) ↦
          registered_at regs ((move s src r).heap t) (r.heap t).addr (r.heap t).token kept
            (ap (λ g. g.token) (move-grant s src r t)) (h.placed t (ap is_valid (sym kept) ∙ p))
    ];
    token_held = λ k t e.
        let (b, q) = h.token_held k t e in (b, ap (λ g. g.token) (move-grant s src r t) ∙ q);
    addr_held = λ a t e. moved a t e;
    mesh_held = λ k t e.
        let (b, q) = h.mesh_held k t e in
        (b, ap (λ g. (g.tenant_id, g.mesh_ip)) (move-grant s src r t) ∙ q);
  }
    where
      nothing : {t : ℕ} → none ≡ some t → ⊥
      nothing e = cc

      removed :
          (a : AddrPort) (t : ℕ)
          → r.by_addr a ≡ some s
          → (r.heap s).addr ≡ a
          → delete_if addr_port_eq (r.heap s).addr s r.by_addr a ≡ some t
          → ⊥
      removed a t e q d =
          let own : (s == s) ≡ true = ground arith in
          let at_a = subst (λ b. delete_if addr_port_eq b s r.by_addr a ≡ some t) q d in
          let found = rw (e, own) at at_a in
          let gone = rw ((addr_port_eq_iff a a).1 refl) at found in nothing gone

      moved :
          (a : AddrPort) (t : ℕ)
          → (move s src r).by_addr a ≡ some t
          → (t < r.fresh) × (((move s src r).heap t).addr ≡ a)
      moved a t e = elim (Bool-cases (addr_port_eq src a)) [
        | inl hit ↦
            let same : s ≡ t = some_injective (rw hit at e) in
            (
              subst (λ u. u < r.fresh) same l,
              subst (λ u. ((move s src r).heap u).addr ≡ a) same
                  (move-addr_self s src r ∙ (addr_port_eq_iff src a).0 hit),
            )
        | inr miss ↦
            let old = rw miss at e in
            let (b, q) =
              h.addr_held a t (delete_if-some addr_port_eq (r.heap s).addr a s r.by_addr t old) in
            (
              b,
              elim (move-addr s src r t) [
                | inl (same, here) ↦ absurd (
                    removed a t
                      (subst (λ u. r.by_addr a ≡ some u) (sym same)
                        (delete_if-some addr_port_eq (r.heap s).addr a s r.by_addr t old))
                      (ap (λ u. (r.heap u).addr) same ∙ q) old)
                | inr (inl (other, was, gone)) ↦
                    let (b', q') =
                      h.addr_held src t
                        (delete_if-some addr_port_eq (r.heap s).addr src s r.by_addr t was) in
                    absurd (clash miss ((addr_port_eq_iff src a).1 (sym q' ∙ q)))
                | inr (inr (other, kept)) ↦ kept ∙ q
              ],
            )
      ]
