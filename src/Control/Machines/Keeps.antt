-- ===== src/Control/Machines/Keeps.antt =====
-- What the requests of internal/api keep of the tables of tenants, tokens and machines.
use mesh2mesh.Base.{
  null, any, All-map, Text, text_eq, text_eq_iff, ltb, ◌==◌, Bool-cases, clash, ℕ, ◌+◌, ◌≡◌, refl,
  sym, subst, ◌⊎◌, inl, inr, Bool, true, false, not, ◌||◌, Option, none, some, List, ◌∷◌, arith,
}
use mesh2mesh.Control.Access.{Draws, is_positive, parse_cidr}
use mesh2mesh.Control.Access.Tenants.{IsGrown, not_grown, grown, parse_cidr-IsRange}
use mesh2mesh.Control.Addr.{Prefix}
use mesh2mesh.Control.Machines.{
  TokenBody, RegisterBody, MachineRoute, post_tenant, list_tenants, show_tenant, post_token,
  show_peers, post_peer, post_nat_endpoint, max_token_ttl, max_token_uses, token_ttl, token_uses,
  remote_addr, new_tenant, new_token, post_token_body, post_peer_body, from_source, post_nat,
  serve_machine,
}
use mesh2mesh.Control.Machines.Endpoint.{save_endpoint}
use mesh2mesh.Control.Netip.{Addr, AddrPort, addr_eq, unmap}
use mesh2mesh.Control.Registry.{
  TokenRow, PeerRow, Registry, Saved, saved, rejected, get_tenant, with_endpoint, with_nat_endpoint,
  set_peer_endpoint, set_peer_nat_endpoint,
}
use mesh2mesh.Control.Registry.Enrollment.{of_token, has_token_id, IsPlaced, IsTables, IsRegistry}
use mesh2mesh.Control.Registry.Steps.{
  register_peer-IsRegistry, create_token-IsRegistry, IsSame, change_peer-IsRegistry,
}
use mesh2mesh.Control.Store.{TenantRow, has_id, create_tenant}
use mesh2mesh.Control.Store.Counts.{find-some}
use mesh2mesh.Control.Wire.RoundTrip.{IsAddr}

-- An id that no row has.
pub record IsNewId (r : Registry) (id : Text) : Type 0 where
  pub fresh_tenant : any (has_id id) r.db.tenants ≡ false
  pub fresh_token : any (has_token_id id) r.enrollment_tokens ≡ false
  pub fresh_machine : any (of_token id) r.peers ≡ false

known_still :
    (id : Text) (t : TenantRow) (ts : List TenantRow)
    → any (has_id id) ts ≡ true
    → any (has_id id) (t ∷ ts) ≡ true
known_still id t ts h = ground arith

grown-IsPlaced :
    (t : TenantRow) (ts : List TenantRow) (p : PeerRow)
    → any (has_id t.id) ts ≡ false
    → IsPlaced ts p
    → IsPlaced (t ∷ ts) p
grown-IsPlaced t ts p new k =
    let other : text_eq t.id p.tenant_id ≡ false = elim (Bool-cases (text_eq t.id p.tenant_id)) [
      | inl same ↦
          let (own, present) = find-some (has_id p.tenant_id) ts k.tenant k.in_tenant in
          absurd (
            clash
              (subst (λ x. any (has_id x) ts ≡ false) ((text_eq_iff t.id p.tenant_id).0 same) new)
              (present (has_id p.tenant_id) own))
      | inr differs ↦ differs
    ] in
    record { tenant = k.tenant; in_tenant = rw other k.in_tenant; inside = k.inside }

pub grown-IsTables :
    {ts' : List TenantRow} (id : Text) (ts : List TenantRow) (tokens : List TokenRow)
    (peers : List PeerRow)
    → IsGrown id ts ts'
    → any (has_id id) ts ≡ false
    → IsTables ts tokens peers
    → IsTables ts' tokens peers
grown-IsTables id ts tokens peers not_grown new h = h
grown-IsTables id ts tokens peers (grown t its range) new h =
    let absent : any (has_id t.id) ts ≡ false =
      subst (λ x. any (has_id x) ts ≡ false) (sym its) new in
    record {
      ranges = (range, h.ranges);
      token_tenants =
          All-map (λ u. any (has_id u.tenant_id) ts ≡ true)
            (λ u. any (has_id u.tenant_id) (t ∷ ts) ≡ true) (λ u k. known_still u.tenant_id t ts k)
            tokens h.token_tenants;
      token_once = h.token_once;
      spent = h.spent;
      placed =
          All-map (IsPlaced ts) (IsPlaced (t ∷ ts)) (λ p k. grown-IsPlaced t ts p absent k) peers
            h.placed;
      mesh_once = h.mesh_once;
      key_once = h.key_once;
    }

pub nat-IsSame : (a : AddrPort) → IsSame (with_nat_endpoint a)
nat-IsSame a = record {
  id = λ p. refl;
  tenant_id = λ p. refl;
  mesh_ip = λ p. refl;
  public_key = λ p. refl;
  token_id = λ p. refl;
}

pub endpoint-IsSame :
    (a : AddrPort) (reachable : Bool) (now : ℕ) → IsSame (with_endpoint a reachable now)
endpoint-IsSame a reachable now = record {
  id = λ p. refl;
  tenant_id = λ p. refl;
  mesh_ip = λ p. refl;
  public_key = λ p. refl;
  token_id = λ p. refl;
}

module _ (web_token : Text) (trim_space : Text → Text) (hash : Text → List ℕ)
    (parse_prefix : Text → Prefix ⊎ Text) (parse_endpoint : Text → Option AddrPort)
    (show_addr : Addr → Text)
    (real : (s : Text) (p : Prefix) → parse_prefix s ≡ inl p → IsAddr p.addr) where
  module _ (d : Draws) (r : Registry) (new : IsNewId r d.id) (h : IsRegistry r) where
    new_tenant-IsRegistry :
        (name raw : Text) (o : Prefix ⊎ Text)
        → parse_cidr trim_space parse_prefix raw ≡ o
        → IsRegistry
            (new_tenant web_token trim_space hash parse_prefix parse_endpoint show_addr name o d
              r).1
    unfolding create_tenant
    new_tenant-IsRegistry name raw (inr message) e = h
    new_tenant-IsRegistry name raw (inl cidr) e =
        grown-IsTables d.id r.db.tenants r.enrollment_tokens r.peers
          (grown (record { id = d.id; name = name; cidr = cidr; created_at = d.now }) refl
            (parse_cidr-IsRange trim_space parse_prefix real raw cidr e))
          new.fresh_tenant h

    post_token_body-IsRegistry :
        (id : Text) (b : TokenBody)
        → IsRegistry
            (post_token_body web_token trim_space hash parse_prefix parse_endpoint show_addr id b d
              r).1
    post_token_body-IsRegistry id b =
        elim (Bool-cases (not (is_positive (token_ttl b)) || ltb max_token_ttl (token_ttl b))) [
          | inl bad ↦ rw bad h
          | inr good ↦
              elim (Bool-cases
                (not (is_positive (token_uses b)) || ltb max_token_uses (token_uses b))) [
                  | inl many ↦ rw (good, many) h
                  | inr few ↦ rw (good, few) (of_tenant (get_tenant id r))
                ]
        ]
      where
        of_tenant :
            (o : Saved TenantRow)
            → IsRegistry
                (new_token web_token trim_space hash parse_prefix parse_endpoint show_addr id b o d
                  r).1
        of_tenant (rejected e) = h
        of_tenant (saved t) =
            create_token-IsRegistry hash d.id d.code id (d.now + token_ttl b) (token_uses b) r
              new.fresh_token new.fresh_machine h

    post_peer_body-IsRegistry :
        (b : RegisterBody)
        → IsRegistry
            (post_peer_body web_token trim_space hash parse_prefix parse_endpoint show_addr b d r).1
    post_peer_body-IsRegistry b = elim (Bool-cases (null (trim_space b.token))) [
      | inl e ↦ rw e h
      | inr f ↦ elim (Bool-cases (null (trim_space b.name))) [
        | inl e ↦ rw (f, e) h
        | inr g ↦ elim (Bool-cases (null (trim_space b.public_key))) [
          | inl e ↦ rw (f, g, e) h
          | inr k ↦
              rw (f, g, k)
                (register_peer-IsRegistry hash d.id d.now (trim_space b.token) (trim_space b.name)
                  (trim_space b.public_key) r h)
        ]
      ]
    ]

    post_nat-IsRegistry :
        (id : Text) (o : Option AddrPort) (remote : Text)
        → IsRegistry
            (post_nat web_token trim_space hash parse_prefix parse_endpoint show_addr id o remote
              r).1
    unfolding set_peer_nat_endpoint
    post_nat-IsRegistry id none remote = h
    post_nat-IsRegistry id (some a) remote = elim (Bool-cases (a.port == 0)) [
      | inl zero_port ↦ rw zero_port h
      | inr some_port ↦ rw some_port (of_source (remote_addr parse_endpoint remote))
    ]
      where
        of_source :
            (o : Option Addr)
            → IsRegistry
                (from_source web_token trim_space hash parse_prefix parse_endpoint show_addr id
                  (record { ip = unmap a.ip; port = a.port })
                  o
                  r).1
        of_source none = h
        of_source (some ip) = elim (Bool-cases (addr_eq (unmap a.ip) ip)) [
          | inr other ↦ rw other h
          | inl own ↦ rw own (
              change_peer-IsRegistry id a.port _ r
                (nat-IsSame (record { ip = unmap a.ip; port = a.port })) h)
        ]

    pub serve_machine-IsRegistry :
        (route : MachineRoute) (remote : Text)
        → IsRegistry
            (serve_machine web_token trim_space hash parse_prefix parse_endpoint show_addr route
              remote d r).1
    unfolding serve_machine
    serve_machine-IsRegistry (post_tenant none) remote = h
    serve_machine-IsRegistry (post_tenant (some b)) remote =
        elim (Bool-cases (null (trim_space b.name))) [
          | inl blank ↦ rw blank h
          | inr named ↦ rw named (
              new_tenant-IsRegistry (trim_space b.name) b.cidr
                (parse_cidr trim_space parse_prefix b.cidr) refl)
        ]
    serve_machine-IsRegistry (list_tenants authorization) remote = h
    serve_machine-IsRegistry (show_tenant authorization id) remote = h
    serve_machine-IsRegistry (post_token id none) remote = h
    serve_machine-IsRegistry (post_token id (some b)) remote = post_token_body-IsRegistry id b
    serve_machine-IsRegistry (show_peers id) remote = h
    serve_machine-IsRegistry (post_peer none) remote = h
    serve_machine-IsRegistry (post_peer (some b)) remote = post_peer_body-IsRegistry b
    serve_machine-IsRegistry (post_nat_endpoint id none) remote = h
    serve_machine-IsRegistry (post_nat_endpoint id (some endpoint)) remote =
        post_nat-IsRegistry id (parse_endpoint (trim_space endpoint)) remote

pub save_endpoint-IsRegistry :
    (id : Text) (endpoint : AddrPort) (reachable : Bool) (now : ℕ) (probe_port : Option ℕ)
    (r : Registry)
    → IsRegistry r
    → IsRegistry (save_endpoint id endpoint reachable now probe_port r).1
unfolding save_endpoint set_peer_endpoint
save_endpoint-IsRegistry id endpoint reachable now probe_port r h =
    change_peer-IsRegistry id endpoint.port (with_endpoint endpoint reachable now) r
      (endpoint-IsSame endpoint reachable now) h
