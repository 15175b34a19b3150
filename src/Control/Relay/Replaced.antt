-- ===== src/Control/Relay/Replaced.antt =====
-- What becomes of a peer's earlier session when internal/relay/relay.go issues a token.
use mesh2mesh.Base.{
  Text, text_eq, text_eq_iff, ◌==◌, ==_iff, Bool-cases, clash, ℕ, ◌<◌, ◌≡◌, refl, sym, ap, ◌∙◌,
  subst, inl, inr, true, false, Option, none, some, List, ◌∷◌, arith,
}
use mesh2mesh.Control.Netip.{addr_port_eq, is_valid, addr_port_eq_iff}
use mesh2mesh.Control.Relay.{RelaySession, mesh_eq, Relay, delete_if, forget, forget_old, enter}
use mesh2mesh.Control.Relay.Grants.{
  Grant, grant_of, Registration, IsKept, update-none, update-some, delete_if-some, some_injective,
}
use mesh2mesh.Control.Relay.Latest.{
  latest, IsCurrent, update_self, delete_if_self, delete_if-other, none-some, mesh_eq_iff,
}

module _ (issued : List Grant) (regs : List Registration) where
  forget-IsCurrent :
      (s : ℕ) (r : Relay) → IsKept regs r → IsCurrent issued r → IsCurrent issued (forget s r)
  unfolding forget
  forget-IsCurrent s r h c = record {
    peer_held = λ p t e. c.peer_held p t (delete_if-some text_eq _ p s r.by_peer t e);
    peer_latest = λ p t e. c.peer_latest p t (delete_if-some text_eq _ p s r.by_peer t e);
    token_current = λ k t e.
        let old = update-none text_eq (r.heap s).token k r.by_token t e in
        still t (c.token_current k t old) (λ same.
          none-some
            (update_self text_eq text_eq_iff (r.heap s).token k none r.by_token
              (ap (λ u. (r.heap u).token) (sym same) ∙ (h.token_held k t old).1))
            e);
    addr_current = λ a t e.
        let old = delete_if-some addr_port_eq (r.heap s).addr a s r.by_addr t e in
        still t (c.addr_current a t old) (λ same.
          none-some
            (delete_if_self addr_port_eq addr_port_eq_iff (r.heap s).addr a s r.by_addr
              (ap (λ u. (r.heap u).addr) (sym same) ∙ (h.addr_held a t old).1) (old ∙ ap some same))
            e);
    mesh_current = λ k t e.
        let old =
          delete_if-some mesh_eq ((r.heap s).tenant_id, (r.heap s).mesh_ip) k s r.by_mesh t e in
        still t (c.mesh_current k t old) (λ same.
          none-some
            (delete_if_self mesh_eq mesh_eq_iff ((r.heap s).tenant_id, (r.heap s).mesh_ip) k s
              r.by_mesh
              (ap (λ u. ((r.heap u).tenant_id, (r.heap u).mesh_ip)) (sym same)
                ∙ (h.mesh_held k t old).1)
              (old ∙ ap some same))
            e);
    addr_indexed = λ t e v.
        let old = delete_if-some text_eq (r.heap s).peer_id (r.heap t).peer_id s r.by_peer t e in
        delete_if-other addr_port_eq addr_port_eq_iff (r.heap s).addr (r.heap t).addr s t r.by_addr
          (c.addr_indexed t old v)
          (λ same.
            none-some
              (delete_if_self text_eq text_eq_iff (r.heap s).peer_id (r.heap t).peer_id s r.by_peer
                (ap (λ u. (r.heap u).peer_id) (sym same)) (old ∙ ap some same))
              e);
  }
    where
      still :
          (t : ℕ)
          → r.by_peer (r.heap t).peer_id ≡ some t
          → (t ≡ s → ⊥)
          → delete_if text_eq (r.heap s).peer_id s r.by_peer (r.heap t).peer_id ≡ some t
      still t e n =
          delete_if-other text_eq text_eq_iff (r.heap s).peer_id (r.heap t).peer_id s t r.by_peer e
            n

  -- The peer of a session that is forgotten has none.
  pub forget_old-by_peer :
      (o : Option ℕ) (p : Text) (r : Relay)
      → IsCurrent issued r
      → r.by_peer p ≡ o
      → (forget_old o r).by_peer p ≡ none
  unfolding forget
  forget_old-by_peer none p r c e = e
  forget_old-by_peer (some s) p r c e =
      delete_if_self text_eq text_eq_iff (r.heap s).peer_id p s r.by_peer (c.peer_held p s e).1 e

  pub forget_old-IsCurrent :
      (o : Option ℕ) (r : Relay)
      → IsKept regs r
      → IsCurrent issued r
      → IsCurrent issued (forget_old o r)
  forget_old-IsCurrent none r h c = c
  forget_old-IsCurrent (some s) r h c = forget-IsCurrent s r h c

-- What the heap holds after a session is entered.
enter-heap_new : (v : RelaySession) (r : Relay) (s : ℕ) → r.fresh ≡ s → (enter v r).heap s ≡ v
enter-heap_new v r s e = rw ((==_iff r.fresh s).1 e) refl

enter-heap_old :
    (v : RelaySession) (r : Relay) (s : ℕ) → s < r.fresh → (enter v r).heap s ≡ r.heap s
enter-heap_old v r s l = let old : (r.fresh == s) ≡ false = ground arith in rw old refl

latest-other :
    (g : Grant) (gs : List Grant) (p : Text)
    → text_eq g.peer_id p ≡ false
    → latest p (g ∷ gs) ≡ latest p gs
unfolding latest
latest-other g gs p n = rw n refl

latest-same :
    (g : Grant) (gs : List Grant) (p : Text)
    → text_eq g.peer_id p ≡ true
    → latest p (g ∷ gs) ≡ some g
unfolding latest
latest-same g gs p n = rw n refl

module _ (issued : List Grant) (regs : List Registration) (v : RelaySession) (r : Relay)
    (h : IsKept regs r) (c : IsCurrent issued r) (absent : r.by_peer v.peer_id ≡ none)
    (unplaced : is_valid v.addr ≡ false) where
  enter-current_new :
      (s : ℕ) → r.fresh ≡ s → (enter v r).by_peer ((enter v r).heap s).peer_id ≡ some s
  enter-current_new s e =
      update_self text_eq text_eq_iff v.peer_id ((enter v r).heap s).peer_id (some r.fresh)
        r.by_peer (sym (ap (λ w. w.peer_id) (enter-heap_new v r s e)))
      ∙ ap some e

  enter-current_old :
      (s : ℕ)
      → s < r.fresh
      → r.by_peer (r.heap s).peer_id ≡ some s
      → (enter v r).by_peer ((enter v r).heap s).peer_id ≡ some s
  enter-current_old s l e =
      subst (λ w. (enter v r).by_peer w.peer_id ≡ some s) (sym (enter-heap_old v r s l))
        (elim (Bool-cases (text_eq v.peer_id (r.heap s).peer_id)) [
          | inl same ↦ absurd (
              none-some absent
                (ap r.by_peer ((text_eq_iff v.peer_id (r.heap s).peer_id).0 same) ∙ e))
          | inr other ↦ rw other e
        ])

  enter-by_peer_old :
      (s : ℕ)
      → (r.fresh == s) ≡ false
      → (enter v r).by_peer (r.heap s).peer_id ≡ some s
      → r.by_peer (r.heap s).peer_id ≡ some s
  enter-by_peer_old s n e =
      elim (update-some text_eq v.peer_id (r.heap s).peer_id r.fresh r.by_peer s e) [
        | inl (hit, new) ↦ absurd (clash n ((==_iff r.fresh s).1 new))
        | inr old ↦ old
      ]

  pub enter-IsCurrent : IsCurrent (grant_of v ∷ issued) (enter v r)
  enter-IsCurrent = record {
    peer_held = λ p s e. elim (update-some text_eq v.peer_id p r.fresh r.by_peer s e) [
      | inl (hit, new) ↦ (
        omega (arith, new),
        ap (λ w. w.peer_id) (enter-heap_new v r s new) ∙ (text_eq_iff v.peer_id p).0 hit,
      )
      | inr old ↦
          let (l, q) = c.peer_held p s old in
          (omega (arith, l), ap (λ w. w.peer_id) (enter-heap_old v r s l) ∙ q)
    ];
    peer_latest = λ p s e. elim (Bool-cases (text_eq v.peer_id p)) [
      | inl hit ↦
          latest-same (grant_of v) issued p hit
          ∙ ap (λ w. some (grant_of w)) (sym (enter-heap_new v r s (some_injective (rw hit at e))))
      | inr miss ↦
          let old = rw miss at e in
          latest-other (grant_of v) issued p miss
          ∙ c.peer_latest p s old
          ∙ ap (λ w. some (grant_of w)) (sym (enter-heap_old v r s (c.peer_held p s old).0))
    ];
    token_current = λ k s e. elim (update-some text_eq v.token k r.fresh r.by_token s e) [
      | inl (hit, new) ↦ enter-current_new s new
      | inr old ↦ enter-current_old s (h.token_held k s old).0 (c.token_current k s old)
    ];
    addr_current = λ a s e. enter-current_old s (h.addr_held a s e).0 (c.addr_current a s e);
    mesh_current = λ k s e.
        elim (update-some mesh_eq (v.tenant_id, v.mesh_ip) k r.fresh r.by_mesh s e) [
          | inl (hit, new) ↦ enter-current_new s new
          | inr old ↦ enter-current_old s (h.mesh_held k s old).0 (c.mesh_current k s old)
        ];
    addr_indexed = λ s e p. elim (Bool-cases (r.fresh == s)) [
      | inl hit ↦ absurd (
          clash unplaced
            (ap (λ w. is_valid w.addr) (sym (enter-heap_new v r s ((==_iff r.fresh s).0 hit))) ∙ p))
      | inr miss ↦
          let same : (enter v r).heap s ≡ r.heap s = rw miss refl in
          let old =
            enter-by_peer_old s miss (ap (λ w. (enter v r).by_peer w.peer_id) (sym same) ∙ e) in
          ap (λ w. r.by_addr w.addr) same
          ∙ c.addr_indexed s old (ap (λ w. is_valid w.addr) (sym same) ∙ p)
    ];
  }
