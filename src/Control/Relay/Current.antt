-- ===== src/Control/Relay/Current.antt =====
-- Frames, and the sessions that the maps of internal/relay/relay.go point to.
use mesh2mesh.Base.{
  ==_iff, Bool-cases, clash, ℕ, ◌≡◌, refl, sym, ap, ◌∙◌, subst, inl, inr, true, some, List, [],
  arith,
}
use mesh2mesh.Control.Netip.{AddrPort, addr_port_eq, is_valid, addr_port_eq_iff}
use mesh2mesh.Control.Relay.{Relay, new_relay, delete_if, move, see}
use mesh2mesh.Control.Relay.Grants.{
  Grant, grant_of, update-some, delete_if-some, see-grant, see-addr,
}
use mesh2mesh.Control.Relay.Latest.{IsCurrent, update_self, delete_if-other, none-some}
use mesh2mesh.Control.Relay.Moves.{move-grant, move-addr, move-addr_before}

pub new_relay-IsCurrent : IsCurrent [] new_relay
new_relay-IsCurrent = record {
  peer_held = λ p s h. absurd (none-some refl h);
  peer_latest = λ p s h. absurd (none-some refl h);
  token_current = λ k s h. absurd (none-some refl h);
  addr_current = λ k s h. absurd (none-some refl h);
  mesh_current = λ k s h. absurd (none-some refl h);
  addr_indexed = λ s h v. absurd (none-some refl h);
}

-- A step that changes no grant in the heap, and what is at an address for sessions in use only.
module _ (issued : List Grant) (r : Relay) where
  regranted-IsCurrent :
      (q : Relay)
      → ((t : ℕ) → grant_of (q.heap t) ≡ grant_of (r.heap t))
      → q.fresh ≡ r.fresh
      → q.by_peer ≡ r.by_peer
      → q.by_token ≡ r.by_token
      → q.by_mesh ≡ r.by_mesh
      → ((a : AddrPort) (s : ℕ) → q.by_addr a ≡ some s → r.by_peer (r.heap s).peer_id ≡ some s)
      → ((s : ℕ)
          → r.by_peer (r.heap s).peer_id ≡ some s
          → is_valid (q.heap s).addr ≡ true
          → q.by_addr (q.heap s).addr ≡ some s)
      → IsCurrent issued r
      → IsCurrent issued q
  regranted-IsCurrent q g fresh peer token mesh addr indexed c = record {
    peer_held = λ p s e.
        let (l, same) = c.peer_held p s (ap (λ m. m p) (sym peer) ∙ e) in
        (omega (arith, l, fresh), ap (λ w. w.peer_id) (g s) ∙ same);
    peer_latest = λ p s e. c.peer_latest p s (ap (λ m. m p) (sym peer) ∙ e) ∙ ap some (sym (g s));
    token_current = λ k s e. still s (c.token_current k s (ap (λ m. m k) (sym token) ∙ e));
    addr_current = λ a s e. still s (addr a s e);
    mesh_current = λ k s e. still s (c.mesh_current k s (ap (λ m. m k) (sym mesh) ∙ e));
    addr_indexed = λ s e v.
        indexed s
          (sym (ap (λ m. m (q.heap s).peer_id) peer ∙ ap (λ w. r.by_peer w.peer_id) (g s)) ∙ e) v;
  }
    where
      still :
          (s : ℕ) → r.by_peer (r.heap s).peer_id ≡ some s → q.by_peer (q.heap s).peer_id ≡ some s
      still s e = ap (λ m. m (q.heap s).peer_id) peer ∙ ap (λ w. r.by_peer w.peer_id) (g s) ∙ e

  pub see-IsCurrent : (s now : ℕ) → IsCurrent issued r → IsCurrent issued (see s now r)
  see-IsCurrent s now c =
      regranted-IsCurrent (see s now r) (see-grant s now r) refl refl refl refl c.addr_current
        (λ t e v.
          ap r.by_addr (see-addr s now r t)
          ∙ c.addr_indexed t e (ap is_valid (sym (see-addr s now r t)) ∙ v))
        c

  module _ (s : ℕ) (src : AddrPort) (own : r.by_peer (r.heap s).peer_id ≡ some s)
      (c : IsCurrent issued r) where
    move-current :
        (a : AddrPort) (t : ℕ)
        → (move s src r).by_addr a ≡ some t
        → r.by_peer (r.heap t).peer_id ≡ some t
    move-current a t e =
        elim (update-some addr_port_eq src a s (delete_if addr_port_eq (r.heap s).addr s r.by_addr)
          t e) [
            | inl (hit, new) ↦ subst (λ u. r.by_peer (r.heap u).peer_id ≡ some u) new own
            | inr old ↦
                c.addr_current a t (delete_if-some addr_port_eq (r.heap s).addr a s r.by_addr t old)
          ]

    -- The one that moved is where it moved to; of the others, nobody else is.
    move-indexed :
        (t : ℕ)
        → r.by_peer (r.heap t).peer_id ≡ some t
        → is_valid ((move s src r).heap t).addr ≡ true
        → (move s src r).by_addr ((move s src r).heap t).addr ≡ some t
    move-indexed t e v = elim (move-addr s src r t) [
      | inl (same, here) ↦
          update_self addr_port_eq addr_port_eq_iff src ((move s src r).heap t).addr (some s)
            (delete_if addr_port_eq (r.heap s).addr s r.by_addr) (sym here)
          ∙ ap some same
      | inr (inl (other, was, gone)) ↦ absurd (clash refl (ap is_valid (sym gone) ∙ v))
      | inr (inr (other, kept)) ↦
          let there = c.addr_indexed t e (ap is_valid (sym kept) ∙ v) in
          let differs : t ≡ s → ⊥ = (λ same. clash other ((==_iff s t).1 (sym same))) in
          let still =
            delete_if-other addr_port_eq addr_port_eq_iff (r.heap s).addr (r.heap t).addr s t
              r.by_addr there differs in
          subst (λ a. (move s src r).by_addr a ≡ some t) (sym kept)
            (elim (Bool-cases (addr_port_eq src (r.heap t).addr)) [
              | inl hit ↦ absurd (
                  clash refl (
                    ap is_valid (
                      sym (
                        move-addr_before s src r t other (
                          ap (delete_if addr_port_eq (r.heap s).addr s r.by_addr)
                            ((addr_port_eq_iff src (r.heap t).addr).0 hit)
                          ∙ still)))
                    ∙ v))
              | inr miss ↦ rw miss still
            ])
    ]

    pub move-IsCurrent : IsCurrent issued (move s src r)
    move-IsCurrent =
        regranted-IsCurrent (move s src r) (move-grant s src r) refl refl refl refl move-current
          move-indexed c
