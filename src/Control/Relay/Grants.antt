-- ===== src/Control/Relay/Grants.antt =====
-- What the maps of internal/relay/relay.go point to, whatever tokens are issued and whatever frames
-- come in.
use mesh2mesh.Base.{
  Text, text_eq, text_eq_iff, ◌==◌, ==_iff, Bool-cases, clash, ℕ, ◌<◌, ◌≡◌, refl, sym, ap, ◌∙◌,
  subst, ◌⊎◌, inl, inr, Bool, true, false, Option, none, some, List, [], arith,
}
use mesh2mesh.Control.Netip.{Addr, AddrPort, addr_port_eq, is_valid, addr_eq_iff}
use mesh2mesh.Control.Relay.{
  RelaySession, update, MeshKey, mesh_eq, Relay, new_relay, points_to, delete_if, forget, enter,
  see,
}
use mathlib.Core.List.{Memᴰ}

-- What `Issue` grants: a token to a peer of a tenant with a mesh address.
pub record Grant : Type 0 where
  pub peer_id : Text
  pub tenant_id : Text
  pub mesh_ip : Addr
  pub token : List ℕ

abbrev pub grant_of : RelaySession → Grant
grant_of v = record {
  peer_id = v.peer_id;
  tenant_id = v.tenant_id;
  mesh_ip = v.mesh_ip;
  token = v.token;
}

abbrev pub Registration : Type 0
Registration = AddrPort × List ℕ

-- Of the registrations received so far.
pub record IsKept (regs : List Registration) (r : Relay) : Type 0 where
  pub placed :
      (s : ℕ) → is_valid (r.heap s).addr ≡ true → Memᴰ ((r.heap s).addr, (r.heap s).token) regs
  pub token_held :
      (k : List ℕ) (s : ℕ) → r.by_token k ≡ some s → (s < r.fresh) × ((r.heap s).token ≡ k)
  pub addr_held :
      (a : AddrPort) (s : ℕ) → r.by_addr a ≡ some s → (s < r.fresh) × ((r.heap s).addr ≡ a)
  pub mesh_held :
      (k : MeshKey) (s : ℕ)
      → r.by_mesh k ≡ some s
      → (s < r.fresh) × (((r.heap s).tenant_id, (r.heap s).mesh_ip) ≡ k)

module _ {K : Type 0} (eq : K → K → Bool) where
  pub update-none :
      (k j : K) (m : K → Option ℕ) (s : ℕ) → update eq k none m j ≡ some s → m j ≡ some s
  update-none k j m s h = ground arith

  pub update-some :
      (k j : K) (f : ℕ) (m : K → Option ℕ) (s : ℕ)
      → update eq k (some f) m j ≡ some s
      → ((eq k j ≡ true) × (f ≡ s)) ⊎ (m j ≡ some s)
  update-some k j f m s h = ground arith

  pub delete_if-some :
      (k j : K) (t : ℕ) (m : K → Option ℕ) (s : ℕ) → delete_if eq k t m j ≡ some s → m j ≡ some s
  delete_if-some k j t m s h = elim (Bool-cases (points_to (m k) t)) [
    | inl hit ↦ update-none k j m s (rw hit at h)
    | inr miss ↦ rw miss at h
  ]

pub new_relay-IsKept : IsKept [] new_relay
new_relay-IsKept = record {
  placed = λ s h. absurd (true-ne-false h);
  token_held = λ k s h. absurd (none-ne-some h);
  addr_held = λ k s h. absurd (none-ne-some h);
  mesh_held = λ k s h. absurd (none-ne-some h);
}
  where
    none-ne-some : {s : ℕ} → none ≡ some s → ⊥
    none-ne-some e = cc

    true-ne-false : false ≡ true → ⊥
    true-ne-false e = cc

mesh_eq-path :
    (v : RelaySession) (k : MeshKey)
    → mesh_eq (v.tenant_id, v.mesh_ip) k ≡ true
    → (v.tenant_id, v.mesh_ip) ≡ k
mesh_eq-path v (t, ip) h = ground (arith, text_eq_iff v.tenant_id t, addr_eq_iff v.mesh_ip ip)

module _ (regs : List Registration) where
  pub forget-IsKept : (s : ℕ) (r : Relay) → IsKept regs r → IsKept regs (forget s r)
  unfolding forget
  forget-IsKept s r h = record {
    placed = h.placed;
    token_held = λ k t e. h.token_held k t (update-none text_eq _ k r.by_token t e);
    addr_held = λ a t e. h.addr_held a t (delete_if-some addr_port_eq _ a s r.by_addr t e);
    mesh_held = λ k t e. h.mesh_held k t (delete_if-some mesh_eq _ k s r.by_mesh t e);
  }

  -- The heap changes at what the maps do not use, and a pointer to it enters two maps.
  pub enter-IsKept :
      (v : RelaySession) (r : Relay)
      → is_valid v.addr ≡ false
      → IsKept regs r
      → IsKept regs (enter v r)
  enter-IsKept v r e h = record {
    placed = λ s p. elim (Bool-cases (r.fresh == s)) [
      | inl new ↦ absurd (clash e (rw new at p))
      | inr old ↦ rw old (h.placed s (rw old at p))
    ];
    token_held = λ k s q. elim (update-some text_eq v.token k r.fresh r.by_token s q) [
      | inl (hit, new) ↦ entered (λ w. w.token ≡ k) s new ((text_eq_iff v.token k).0 hit)
      | inr old ↦ kept (λ w. w.token ≡ k) s (h.token_held k s old)
    ];
    addr_held = λ a s q. kept (λ w. w.addr ≡ a) s (h.addr_held a s q);
    mesh_held = λ k s q.
        elim (update-some mesh_eq (v.tenant_id, v.mesh_ip) k r.fresh r.by_mesh s q) [
          | inl (hit, new) ↦
              entered (λ w. (w.tenant_id, w.mesh_ip) ≡ k) s new (mesh_eq-path v k hit)
          | inr old ↦ kept (λ w. (w.tenant_id, w.mesh_ip) ≡ k) s (h.mesh_held k s old)
        ];
  }
    where
      entered :
          (P : RelaySession → Type 0) (s : ℕ)
          → r.fresh ≡ s
          → P v
          → (s < (enter v r).fresh) × P ((enter v r).heap s)
      entered P s new p = (omega arith, rw ((==_iff r.fresh s).1 new) p)

      kept :
          (P : RelaySession → Type 0) (s : ℕ)
          → (s < r.fresh) × P (r.heap s)
          → (s < (enter v r).fresh) × P ((enter v r).heap s)
      kept P s (below, p) =
          let old : (r.fresh == s) ≡ false = ground arith in (omega arith, rw old p)

pub registered_at :
    (regs : List Registration) (v : RelaySession) (a : AddrPort) (k : List ℕ)
    → v.addr ≡ a
    → v.token ≡ k
    → Memᴰ (a, k) regs
    → Memᴰ (v.addr, v.token) regs
registered_at regs v a k e f m =
    subst (λ b. Memᴰ (b, v.token) regs) (sym e) (subst (λ j. Memᴰ (a, j) regs) (sym f) m)

-- A session that is seen keeps its grant and its address.
pub see-grant :
    (s now : ℕ) (r : Relay) (t : ℕ) → grant_of ((see s now r).heap t) ≡ grant_of (r.heap t)
see-grant s now r t = elim (Bool-cases (s == t)) [
  | inl hit ↦ rw hit (ap (λ u. grant_of (r.heap u)) ((==_iff s t).0 hit))
  | inr miss ↦ rw miss refl
]

pub see-addr : (s now : ℕ) (r : Relay) (t : ℕ) → ((see s now r).heap t).addr ≡ (r.heap t).addr
see-addr s now r t = elim (Bool-cases (s == t)) [
  | inl hit ↦ rw hit (ap (λ u. (r.heap u).addr) ((==_iff s t).0 hit))
  | inr miss ↦ rw miss refl
]

module _ (regs : List Registration) where
  pub see-IsKept : (s now : ℕ) (r : Relay) → IsKept regs r → IsKept regs (see s now r)
  see-IsKept s now r h = record {
    placed = λ t p.
        registered_at regs ((see s now r).heap t) (r.heap t).addr (r.heap t).token
          (see-addr s now r t) (ap (λ g. g.token) (see-grant s now r t))
          (h.placed t (ap is_valid (sym (see-addr s now r t)) ∙ p));
    token_held = λ k t e.
        let (l, q) = h.token_held k t e in (l, ap (λ g. g.token) (see-grant s now r t) ∙ q);
    addr_held = λ a t e. let (l, q) = h.addr_held a t e in (l, see-addr s now r t ∙ q);
    mesh_held = λ k t e.
        let (l, q) = h.mesh_held k t e in
        (l, ap (λ g. (g.tenant_id, g.mesh_ip)) (see-grant s now r t) ∙ q);
  }

pub some_injective : {s t : ℕ} → some s ≡ some t → s ≡ t
some_injective e = cc
