-- ===== src/Control/Relay/Latest.antt =====
-- The latest session of a peer in internal/relay/relay.go.
use mesh2mesh.Base.{
  Text, text_eq, text_eq_iff, ◌==◌, if◌then◌else◌, ==_iff, Bool-cases, ℕ, ◌<◌, ◌≡◌, refl, sym, ap,
  ◌∙◌, ◌↔◌, inl, inr, Bool, true, Option, none, some, List, [], ◌∷◌, arith,
}
use mesh2mesh.Control.Netip.{AddrPort, is_valid, addr_eq_iff}
use mesh2mesh.Control.Relay.{update, MeshKey, mesh_eq, Relay, points_to, delete_if}
use mesh2mesh.Control.Relay.Grants.{Grant, grant_of}

-- The latest grant to a peer.
unfoldable pub latest : Text → List Grant → Option Grant
latest p [] = none
latest p (g ∷ gs) = let older = latest p gs in if text_eq g.peer_id p then some g else older

-- Every session that a map points to is the one of its peer, and holds the latest grant to it; and it
-- is found at its address.
pub record IsCurrent (issued : List Grant) (r : Relay) : Type 0 where
  pub peer_held :
      (p : Text) (s : ℕ) → r.by_peer p ≡ some s → (s < r.fresh) × ((r.heap s).peer_id ≡ p)
  pub peer_latest :
      (p : Text) (s : ℕ) → r.by_peer p ≡ some s → latest p issued ≡ some (grant_of (r.heap s))
  pub token_current :
      (k : List ℕ) (s : ℕ) → r.by_token k ≡ some s → r.by_peer (r.heap s).peer_id ≡ some s
  pub addr_current :
      (a : AddrPort) (s : ℕ) → r.by_addr a ≡ some s → r.by_peer (r.heap s).peer_id ≡ some s
  pub mesh_current :
      (k : MeshKey) (s : ℕ) → r.by_mesh k ≡ some s → r.by_peer (r.heap s).peer_id ≡ some s
  pub addr_indexed :
      (s : ℕ)
      → r.by_peer (r.heap s).peer_id ≡ some s
      → is_valid (r.heap s).addr ≡ true
      → r.by_addr (r.heap s).addr ≡ some s

module _ {K : Type 0} (eq : K → K → Bool) (eq_iff : (k j : K) → (eq k j ≡ true) ↔ (k ≡ j)) where
  pub update_self : (k j : K) (o : Option ℕ) (m : K → Option ℕ) → k ≡ j → update eq k o m j ≡ o
  update_self k j o m e = rw ((eq_iff k j).1 e) refl

  pub delete_if_self :
      (k j : K) (s : ℕ) (m : K → Option ℕ) → k ≡ j → m j ≡ some s → delete_if eq k s m j ≡ none
  delete_if_self k j s m e f =
      let own : (s == s) ≡ true = ground arith in rw (ap m e ∙ f, own) (update_self k j none m e)

  pub delete_if-other :
      (k j : K) (s t : ℕ) (m : K → Option ℕ)
      → m j ≡ some t
      → (t ≡ s → ⊥)
      → delete_if eq k s m j ≡ some t
  delete_if-other k j s t m f n = elim (Bool-cases (points_to (m k) s)) [
    | inl hit ↦ elim (Bool-cases (eq k j)) [
      | inl same ↦ absurd (
          n ((==_iff t s).0 (ap (λ o. points_to o s) (sym (ap m ((eq_iff k j).0 same) ∙ f)) ∙ hit)))
      | inr other ↦ rw (hit, other) f
    ]
    | inr miss ↦ rw miss f
  ]

pub none-some : {A : Type 0} {a : A} {o : Option A} → o ≡ none → o ≡ some a → ⊥
none-some e f = cc

pub mesh_eq_iff : (a b : MeshKey) → (mesh_eq a b ≡ true) ↔ (a ≡ b)
mesh_eq_iff (t, ip) (u, jp) = ground (arith, text_eq_iff t u, addr_eq_iff ip jp)
