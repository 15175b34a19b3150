-- ===== src/Control/Machines/Source.antt =====
-- What the requests of internal/api change of the machines' rows.
use mesh2mesh.Base.{
  null, any, find, Text, text_eq, ltb, ◌==◌, if◌then◌else◌, Bool-cases, ℕ, ◌+◌, ◌≡◌, refl, sym, ap,
  ◌∙◌, subst, ◌⊎◌, inl, inr, false, not, ◌||◌, Option, none, some, List, ◌∷◌, map,
}
use mesh2mesh.Control.Access.{Draws, is_positive, parse_cidr}
use mesh2mesh.Control.Addr.{
  Prefix, pow2, host_bits, NextFree, pool_exhausted, free_addr, next_free_addr,
}
use mesh2mesh.Control.Machines.{
  TokenBody, RegisterBody, MachineRoute, post_tenant, list_tenants, show_tenant, post_token,
  show_peers, post_peer, post_nat_endpoint, max_token_ttl, max_token_uses, token_ttl, token_uses,
  remote_addr, new_tenant, new_token, post_token_body, post_peer_body, from_source, post_nat,
  serve_machine,
}
use mesh2mesh.Control.Netip.{Addr, AddrPort, addr_eq, unmap, addr_eq_iff}
use mesh2mesh.Control.Registry.{
  TokenRow, PeerRow, Registry, Saved, saved, rejected, is_peer, has_mesh_ip, has_key, get_tenant,
  is_port, with_nat_endpoint, set_peer_nat_endpoint,
}
use mesh2mesh.Control.Registry.Enroll.{
  used_addrs, peer_row, at_address, in_tenant, with_token, create_token, redeems, register_peer,
}
use mesh2mesh.Control.Store.{TenantRow, has_id, create_tenant}

abbrev with_change : Text → (PeerRow → PeerRow) → List PeerRow → List PeerRow
with_change id change peers = map (λ p. if is_peer id p then change p else p) peers

-- Nothing; or one more machine, without endpoints; or a NAT endpoint of one at an address that is
-- the source of the request.
pub data IsServed (source : Option Addr) (before : List PeerRow) : List PeerRow → Type 0 where
  same_peers : IsServed source before before
  one_more :
      (p : PeerRow)
      → p.direct_reachable ≡ false
      → p.nat_ip ≡ none
      → IsServed source before (p ∷ before)
  nat_told :
      (id : Text) (a : AddrPort)
      → source ≡ some a.ip
      → IsServed source before (with_change id (with_nat_endpoint a) before)

module _ (source : Option Addr) (r : Registry) where
  register_peer-IsServed :
      (hash : Text → List ℕ) (id : Text) (now : ℕ) (secret name key : Text)
      → IsServed source r.peers (register_peer hash id now secret name key r).1.peers
  unfolding register_peer
  register_peer-IsServed hash id now secret name key =
      of_token_row (find (redeems hash secret now) r.enrollment_tokens)
    where
      at :
          (t : TokenRow) (tenant : TenantRow) (o : Option NextFree)
          → IsServed source r.peers (at_address id now name key o t tenant r).1.peers
      at t tenant none = same_peers
      at t tenant (some pool_exhausted) = same_peers
      at t tenant (some (free_addr ip)) =
          elim (Bool-cases
            (any (has_mesh_ip t.tenant_id ip) r.peers || any (has_key t.tenant_id key) r.peers)) [
              | inl taken ↦ rw taken same_peers
              | inr new ↦ rw new (one_more (peer_row id now t name key ip) refl refl)
            ]

      of_tenant :
          (t : TokenRow) (o : Option TenantRow)
          → IsServed source r.peers (in_tenant id now name key o t r).1.peers
      of_tenant t none = same_peers
      of_tenant t (some tenant) =
          at t tenant
            (next_free_addr (pow2 (host_bits tenant.cidr)) tenant.cidr (used_addrs t.tenant_id r))

      of_token_row :
          (o : Option TokenRow) → IsServed source r.peers (with_token id now name key o r).1.peers
      of_token_row none = same_peers
      of_token_row (some t) = of_tenant t (find (has_id t.tenant_id) r.db.tenants)

  create_token-peers :
      (hash : Text → List ℕ) (id secret tenant_id : Text) (expires_at max_uses : ℕ)
      → (create_token hash id secret tenant_id expires_at max_uses r).1.peers ≡ r.peers
  unfolding create_token
  create_token-peers hash id secret tenant_id expires_at max_uses =
      elim (Bool-cases (max_uses == 0 || not (any (has_id tenant_id) r.db.tenants))) [
        | inl broken ↦ rw broken refl
        | inr valid ↦
            elim (Bool-cases (any (λ u. text_eq u.token_hash (hash secret)) r.enrollment_tokens)) [
              | inl taken ↦ rw (valid, taken) refl
              | inr drawn ↦ rw (valid, drawn) refl
            ]
      ]

  nat_endpoint-IsServed :
      (id : Text) (a : AddrPort)
      → source ≡ some a.ip
      → IsServed source r.peers (set_peer_nat_endpoint id a r).1.peers
  unfolding set_peer_nat_endpoint
  nat_endpoint-IsServed id a own = elim (Bool-cases (any (is_peer id) r.peers)) [
    | inr absent ↦ rw absent same_peers
    | inl present ↦ elim (Bool-cases (is_port a.port)) [
      | inr broken ↦ rw (present, broken) same_peers
      | inl good ↦ rw (present, good) (nat_told id a own)
    ]
  ]

module _ (web_token : Text) (trim_space : Text → Text) (hash : Text → List ℕ)
    (parse_prefix : Text → Prefix ⊎ Text) (parse_endpoint : Text → Option AddrPort)
    (show_addr : Addr → Text) (d : Draws) (r : Registry) (remote : Text) where
  abbrev source : Option Addr
  source = remote_addr parse_endpoint remote

  post_token_body-peers :
      (id : Text) (b : TokenBody)
      → (post_token_body web_token trim_space hash parse_prefix parse_endpoint show_addr id b d
          r).1.peers
        ≡ r.peers
  post_token_body-peers id b =
      elim (Bool-cases (not (is_positive (token_ttl b)) || ltb max_token_ttl (token_ttl b))) [
        | inl bad ↦ rw bad refl
        | inr good ↦
            elim (Bool-cases
              (not (is_positive (token_uses b)) || ltb max_token_uses (token_uses b))) [
                | inl many ↦ rw (good, many) refl
                | inr few ↦ rw (good, few) (of_tenant (get_tenant id r))
              ]
      ]
    where
      of_tenant :
          (o : Saved TenantRow)
          → (new_token web_token trim_space hash parse_prefix parse_endpoint show_addr id b o d
              r).1.peers
            ≡ r.peers
      of_tenant (rejected e) = refl
      of_tenant (saved t) =
          create_token-peers source r hash d.id d.code id (d.now + token_ttl b) (token_uses b)

  post_peer_body-IsServed :
      (b : RegisterBody)
      → IsServed source r.peers
          (post_peer_body web_token trim_space hash parse_prefix parse_endpoint show_addr b d
            r).1.peers
  post_peer_body-IsServed b = elim (Bool-cases (null (trim_space b.token))) [
    | inl e ↦ rw e same_peers
    | inr f ↦ elim (Bool-cases (null (trim_space b.name))) [
      | inl e ↦ rw (f, e) same_peers
      | inr g ↦ elim (Bool-cases (null (trim_space b.public_key))) [
        | inl e ↦ rw (f, g, e) same_peers
        | inr k ↦
            rw (f, g, k)
              (register_peer-IsServed source r hash d.id d.now (trim_space b.token)
                (trim_space b.name) (trim_space b.public_key))
      ]
    ]
  ]

  post_nat-IsServed :
      (id : Text) (o : Option AddrPort)
      → IsServed source r.peers
          (post_nat web_token trim_space hash parse_prefix parse_endpoint show_addr id o remote
            r).1.peers
  post_nat-IsServed id none = same_peers
  post_nat-IsServed id (some a) = elim (Bool-cases (a.port == 0)) [
    | inl zero_port ↦ rw zero_port same_peers
    | inr some_port ↦ rw some_port (of_source source refl)
  ]
    where
      of_source :
          (o : Option Addr)
          → source ≡ o
          → IsServed source r.peers
              (from_source web_token trim_space hash parse_prefix parse_endpoint show_addr id
                (record { ip = unmap a.ip; port = a.port })
                o
                r).1.peers
      of_source none e = same_peers
      of_source (some ip) e = elim (Bool-cases (addr_eq (unmap a.ip) ip)) [
        | inr other ↦ rw other same_peers
        | inl own ↦ rw own (
            nat_endpoint-IsServed source r id (record { ip = unmap a.ip; port = a.port })
              (e ∙ ap some (sym ((addr_eq_iff (unmap a.ip) ip).0 own))))
      ]

  -- A request through any of the routes but `updateEndpoint` does one of three things to the
  -- machines: nothing; or it adds one, which is not marked as directly reachable and has no NAT
  -- endpoint; or it sets the NAT endpoint of those with some id, to an address that is the source
  -- of the request.
  pub serve_machine-IsServed :
      (route : MachineRoute)
      → IsServed source r.peers
          (serve_machine web_token trim_space hash parse_prefix parse_endpoint show_addr route
            remote d r).1.peers
  unfolding serve_machine create_tenant
  serve_machine-IsServed (post_tenant none) = same_peers
  serve_machine-IsServed (post_tenant (some b)) = elim (Bool-cases (null (trim_space b.name))) [
    | inl blank ↦ rw blank same_peers
    | inr named ↦ rw named (made (parse_cidr trim_space parse_prefix b.cidr))
  ]
    where
      made :
          (o : Prefix ⊎ Text)
          → IsServed source r.peers
              (new_tenant web_token trim_space hash parse_prefix parse_endpoint show_addr
                (trim_space b.name)
                o
                d
                r).1.peers
      made (inr message) = same_peers
      made (inl cidr) = same_peers
  serve_machine-IsServed (list_tenants authorization) = same_peers
  serve_machine-IsServed (show_tenant authorization id) = same_peers
  serve_machine-IsServed (post_token id none) = same_peers
  serve_machine-IsServed (post_token id (some b)) =
      subst (IsServed source r.peers) (sym (post_token_body-peers id b)) same_peers
  serve_machine-IsServed (show_peers id) = same_peers
  serve_machine-IsServed (post_peer none) = same_peers
  serve_machine-IsServed (post_peer (some b)) = post_peer_body-IsServed b
  serve_machine-IsServed (post_nat_endpoint id none) = same_peers
  serve_machine-IsServed (post_nat_endpoint id (some endpoint)) =
      post_nat-IsServed id (parse_endpoint (trim_space endpoint))
