-- ===== src/Control/Registry/Steps.antt =====
-- What each operation of internal/store/store.go keeps of the tables.
use mesh2mesh.Base.{
  any, find, All-map, Text, text_eq, text_eq_iff, ◌==◌, if◌then◌else◌, Bool-cases, clash, and_parts,
  ℕ, ◌<◌, ◌≡◌, refl, sym, ap, ◌∙◌, subst, inl, inr, true, false, not, ◌||◌, List, ◌∷◌, map, arith,
}
use mesh2mesh.Control.Netip.{Addr, addr_eq, addr_eq_iff}
use mesh2mesh.Control.Registry.{
  TokenRow, PeerRow, Registry, is_peer, has_mesh_ip, has_key, is_port, change_peer,
}
use mesh2mesh.Control.Registry.Enroll.{
  used_addrs, spend, peer_row, Enrolled, create_token, redeems, register_peer,
}
use mesh2mesh.Control.Registry.Enrollment.{
  of_token, has_token_id, IsSpent, IsPlaced, IsRegistry, IsEnrolled, no_token, no_address, same_key,
  enrolled, register_peer-IsEnrolled,
}
use mesh2mesh.Control.Registry.Ranges.{IsInside, free-IsInside, free-unused}
use mesh2mesh.Control.Registry.Rows.{All-only, All-both, once_more}
use mesh2mesh.Control.Store.{TenantRow, has_id}
use mesh2mesh.Control.Store.Counts.{count-map, count_none}

module _ (r : Registry) (t : TokenRow) (tenant : TenantRow) (p : PeerRow)
    (same_tenant : p.tenant_id ≡ t.tenant_id) (same_token : p.token_id ≡ t.id) where
  -- The machines and the uses of each token, when one more machine is added.
  more-IsSpent :
      (u : TokenRow)
      → IsSpent r.peers u
      → (has_token_id t.id u ≡ true → u.uses < u.max_uses)
      → IsSpent (p ∷ r.peers) (spend t.id u)
  more-IsSpent u h room = elim (Bool-cases (text_eq u.id t.id)) [
    | inl same ↦
        let own : text_eq p.token_id u.id ≡ true =
          (text_eq_iff p.token_id u.id).1 (same_token ∙ sym ((text_eq_iff u.id t.id).0 same)) in
        let left = room same in
        rw same
          (record { within = omega (arith, left); counted = rw own (omega (arith, h.counted)) })
    | inr other ↦
        let others : text_eq p.token_id u.id ≡ false = elim (Bool-cases (text_eq p.token_id u.id)) [
          | inl hit ↦ absurd (
              clash other (
                (text_eq_iff u.id t.id).1 (sym ((text_eq_iff p.token_id u.id).0 hit) ∙ same_token)))
          | inr miss ↦ miss
        ] in
        rw other (record { within = h.within; counted = rw others h.counted })
  ]

mesh-same :
    (p : PeerRow) (tenant : Text) (ip : Addr) (ps : List PeerRow)
    → any (has_mesh_ip p.tenant_id p.mesh_ip) ps ≡ false
    → has_mesh_ip tenant ip p ≡ true
    → any (has_mesh_ip tenant ip) ps ≡ false
mesh-same p tenant ip ps none_there hit =
    let (t, a) = and_parts (text_eq p.tenant_id tenant) (addr_eq p.mesh_ip ip) hit in
    subst (λ x. any (has_mesh_ip x ip) ps ≡ false) ((text_eq_iff p.tenant_id tenant).0 t)
      (subst (λ x. any (has_mesh_ip p.tenant_id x) ps ≡ false) ((addr_eq_iff p.mesh_ip ip).0 a)
        none_there)

key-same :
    (p : PeerRow) (tenant key : Text) (ps : List PeerRow)
    → any (has_key p.tenant_id p.public_key) ps ≡ false
    → has_key tenant key p ≡ true
    → any (has_key tenant key) ps ≡ false
key-same p tenant key ps none_there hit =
    let (t, k) = and_parts (text_eq p.tenant_id tenant) (text_eq p.public_key key) hit in
    subst (λ x. any (has_key x key) ps ≡ false) ((text_eq_iff p.tenant_id tenant).0 t)
      (subst (λ x. any (has_key p.tenant_id x) ps ≡ false) ((text_eq_iff p.public_key key).0 k)
        none_there)

module _ (hash : Text → List ℕ) (id : Text) (now : ℕ) (secret name key : Text) (r : Registry) where
  enrolled-IsRegistry :
      {o : Enrolled} → IsEnrolled hash id now secret name key r o → IsRegistry r → IsRegistry o.1
  enrolled-IsRegistry (no_token miss) h = h
  enrolled-IsRegistry (no_address t tenant hit its none_free) h = h
  enrolled-IsRegistry (same_key t hit taken) h = h
  enrolled-IsRegistry (enrolled t tenant ip hit its low new) h =
      let p = peer_row id now t name key ip in
      let unused = free-unused tenant.cidr (used_addrs t.tenant_id r) ip low.0 in
      let room =
        All-only (λ u. u.uses < u.max_uses) (has_token_id t.id) (redeems hash secret now)
          r.enrollment_tokens t (λ u e. ground arith) hit ((text_eq_iff t.id t.id).1 refl)
          (h.token_once t.id) in
      record {
        ranges = h.ranges;
        token_tenants =
            All-both (λ u. any (has_id u.tenant_id) r.db.tenants ≡ true)
              (λ u. any (has_id u.tenant_id) r.db.tenants ≡ true)
              (λ u. any (has_id u.tenant_id) r.db.tenants ≡ true) (spend t.id)
              (λ u e e'. ground arith) r.enrollment_tokens h.token_tenants h.token_tenants;
        token_once = λ other. omega (
          arith,
          count-map (has_token_id other) (spend t.id) (λ u. ground arith) r.enrollment_tokens,
          h.token_once other,
        );
        spent =
            All-both (IsSpent r.peers) (λ u. has_token_id t.id u ≡ true → u.uses < u.max_uses)
              (IsSpent (p ∷ r.peers)) (spend t.id) (more-IsSpent r t tenant p refl refl)
              r.enrollment_tokens h.spent room;
        placed = (
          record {
            tenant = tenant;
            in_tenant = its;
            inside = free-IsInside tenant.cidr (used_addrs t.tenant_id r) ip low.0;
          },
          h.placed,
        );
        mesh_once = λ other a.
            once_more (has_mesh_ip other a) p r.peers (mesh-same p other a r.peers unused)
              (h.mesh_once other a);
        key_once = λ other k.
            once_more (has_key other k) p r.peers (key-same p other k r.peers new)
              (h.key_once other k);
      }

  pub register_peer-IsRegistry :
      IsRegistry r → IsRegistry (register_peer hash id now secret name key r).1
  register_peer-IsRegistry h =
      enrolled-IsRegistry (register_peer-IsEnrolled hash id now secret name key r h) h

pub create_token-IsRegistry :
    (hash : Text → List ℕ) (id secret tenant_id : Text) (expires_at max_uses : ℕ) (r : Registry)
    → any (has_token_id id) r.enrollment_tokens ≡ false
    → any (of_token id) r.peers ≡ false
    → IsRegistry r
    → IsRegistry (create_token hash id secret tenant_id expires_at max_uses r).1
unfolding create_token
create_token-IsRegistry hash id secret tenant_id expires_at max_uses r new unspent h =
    elim (Bool-cases (max_uses == 0 || not (any (has_id tenant_id) r.db.tenants))) [
      | inl broken ↦ rw broken h
      | inr valid ↦
          elim (Bool-cases (any (λ u. text_eq u.token_hash (hash secret)) r.enrollment_tokens)) [
            | inl taken ↦ rw (valid, taken) h
            | inr drawn ↦
                let known : any (has_id tenant_id) r.db.tenants ≡ true = ground arith in
                rw (valid, drawn)
                  (record {
                    ranges = h.ranges;
                    token_tenants = (known, h.token_tenants);
                    token_once = λ other.
                        once_more (has_token_id other) _ r.enrollment_tokens
                          (λ same.
                            subst (λ x. any (has_token_id x) r.enrollment_tokens ≡ false)
                              ((text_eq_iff id other).0 same) new)
                          (h.token_once other);
                    spent = (
                      record {
                        within = omega arith;
                        counted = count_none (of_token id) r.peers unspent;
                      },
                      h.spent,
                    );
                    placed = h.placed;
                    mesh_once = h.mesh_once;
                    key_once = h.key_once;
                  })
          ]
    ]

-- A change of a machine that leaves its identity.
pub record IsSame (change : PeerRow → PeerRow) : Type 0 where
  pub id : (p : PeerRow) → (change p).id ≡ p.id
  pub tenant_id : (p : PeerRow) → (change p).tenant_id ≡ p.tenant_id
  pub mesh_ip : (p : PeerRow) → (change p).mesh_ip ≡ p.mesh_ip
  pub public_key : (p : PeerRow) → (change p).public_key ≡ p.public_key
  pub token_id : (p : PeerRow) → (change p).token_id ≡ p.token_id

abbrev change_one : Text → (PeerRow → PeerRow) → PeerRow → PeerRow
change_one id change p = if is_peer id p then change p else p

change_one-IsSame :
    (id : Text) (change : PeerRow → PeerRow) → IsSame change → IsSame (change_one id change)
change_one-IsSame id change s = record {
  id = λ p. elim (Bool-cases (is_peer id p)) [ inl e ↦ rw e (s.id p) | inr e ↦ rw e refl ];
  tenant_id =
      λ p. elim (Bool-cases (is_peer id p)) [ inl e ↦ rw e (s.tenant_id p) | inr e ↦ rw e refl ];
  mesh_ip =
      λ p. elim (Bool-cases (is_peer id p)) [ inl e ↦ rw e (s.mesh_ip p) | inr e ↦ rw e refl ];
  public_key =
      λ p. elim (Bool-cases (is_peer id p)) [ inl e ↦ rw e (s.public_key p) | inr e ↦ rw e refl ];
  token_id =
      λ p. elim (Bool-cases (is_peer id p)) [ inl e ↦ rw e (s.token_id p) | inr e ↦ rw e refl ];
}

map-IsRegistry :
    (f : PeerRow → PeerRow) (r : Registry)
    → IsSame f
    → IsRegistry r
    → IsRegistry (record r { peers = map f r.peers })
map-IsRegistry f r s h = record {
  ranges = h.ranges;
  token_tenants = h.token_tenants;
  token_once = h.token_once;
  spent =
      All-map (IsSpent r.peers) (IsSpent (map f r.peers))
        (λ t k. record {
          within = k.within;
          counted =
              count-map (of_token t.id) f (λ p. ap (λ x. text_eq x t.id) (s.token_id p)) r.peers
              ∙ k.counted;
        })
        r.enrollment_tokens h.spent;
  placed =
      All-both (IsPlaced r.db.tenants) (IsPlaced r.db.tenants) (IsPlaced r.db.tenants) f
        (λ p k k'. record {
          tenant = k.tenant;
          in_tenant = ap (λ x. find (has_id x) r.db.tenants) (s.tenant_id p) ∙ k.in_tenant;
          inside = subst (IsInside k.tenant.cidr) (sym (s.mesh_ip p)) k.inside;
        })
        r.peers h.placed h.placed;
  mesh_once = λ tenant ip. omega (
    arith,
    count-map (has_mesh_ip tenant ip) f (λ p. rw (s.tenant_id p, s.mesh_ip p) refl) r.peers,
    h.mesh_once tenant ip,
  );
  key_once = λ tenant key. omega (
    arith,
    count-map (has_key tenant key) f (λ p. rw (s.tenant_id p, s.public_key p) refl) r.peers,
    h.key_once tenant key,
  );
}

pub change_peer-IsRegistry :
    (id : Text) (port : ℕ) (change : PeerRow → PeerRow) (r : Registry)
    → IsSame change
    → IsRegistry r
    → IsRegistry (change_peer id port change r).1
change_peer-IsRegistry id port change r s h = elim (Bool-cases (any (is_peer id) r.peers)) [
  | inr absent ↦ rw absent h
  | inl present ↦ elim (Bool-cases (is_port port)) [
    | inr broken ↦ rw (present, broken) h
    | inl good ↦
        rw (present, good)
          (map-IsRegistry (change_one id change) r (change_one-IsSame id change s) h)
  ]
]
