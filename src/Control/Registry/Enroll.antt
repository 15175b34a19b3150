-- ===== src/Control/Registry/Enroll.antt =====
-- internal/store/store.go: how enrollment tokens are made, and redeemed for machines.
use mesh2mesh.Base.{
  any, find, Text, text_eq, ltb, ◌==◌, if◌then◌else◌, is_some, ℕ, ◌+◌, Bool, false, not, ◌&&◌, ◌||◌,
  Option, none, some, List, ◌∷◌, map,
}
use mesh2mesh.Control.Addr.{pow2, host_bits, NextFree, pool_exhausted, free_addr, next_free_addr}
use mesh2mesh.Control.Netip.{Addr}
use mesh2mesh.Control.Registry.{
  TokenRow, PeerRow, Registry, Peer, token_invalid, key_conflict, exhausted, no_row, violation,
  stalled, Saved, saved, rejected, scan_peer, has_mesh_ip, has_key,
}
use mesh2mesh.Control.Store.{TenantRow, has_id}

-- `usedAddrs(tenantID)`
abbrev pub used_addrs : Text → Registry → Addr → Bool
used_addrs tenant_id r ip = any (has_mesh_ip tenant_id ip) r.peers

-- `UPDATE enrollment_tokens SET uses = uses + 1 WHERE id = …`
abbrev pub spend : Text → TokenRow → TokenRow
spend id t = if text_eq t.id id then record t { uses = t.uses + 1 } else t

-- `INSERT INTO peers`
abbrev pub peer_row : Text → ℕ → TokenRow → (name key : Text) → Addr → PeerRow
peer_row id now t name key ip = record {
  id = id;
  tenant_id = t.tenant_id;
  name = name;
  public_key = key;
  mesh_ip = ip;
  token_id = t.id;
  created_at = now;
  public_ip = none;
  udp_port = none;
  endpoint_updated_at = none;
  direct_reachable = false;
  nat_ip = none;
  nat_port = none;
}

abbrev pub Enrolled : Type 0
Enrolled = Saved (Peer × TenantRow) × Registry

abbrev insert_peer : PeerRow → TenantRow → Registry → Enrolled
insert_peer p tenant r =
    if any (has_mesh_ip p.tenant_id p.mesh_ip) r.peers
      || any (has_key p.tenant_id p.public_key) r.peers
    then (rejected key_conflict, r)
    else (
      saved (scan_peer p, tenant),
      record r {
        enrollment_tokens = map (spend p.token_id) r.enrollment_tokens;
        peers = p ∷ r.peers;
      },
    )

module _ (id : Text) (now : ℕ) (name key : Text) where
  abbrev pub at_address : Option NextFree → TokenRow → TenantRow → Registry → Enrolled
  at_address none t tenant r = (rejected stalled, r)
  at_address (some pool_exhausted) t tenant r = (rejected exhausted, r)
  at_address (some (free_addr ip)) t tenant r = insert_peer (peer_row id now t name key ip) tenant r

  abbrev pub in_tenant : Option TenantRow → TokenRow → Registry → Enrolled
  in_tenant none t r = (rejected no_row, r)
  in_tenant (some tenant) t r =
      at_address
        (next_free_addr (pow2 (host_bits tenant.cidr)) tenant.cidr (used_addrs t.tenant_id r)) t
        tenant r

  abbrev pub with_token : Option TokenRow → Registry → Enrolled
  with_token none r = (rejected token_invalid, r)
  with_token (some t) r = in_tenant (find (has_id t.tenant_id) r.db.tenants) t r

-- Tokens, with the SHA-256 of a secret
module _ (hash : Text → List ℕ) where
  -- `CreateToken(tenantID, ttl, maxUses)` with the secret that it draws
  unfoldable pub create_token :
      (id secret tenant_id : Text) (expires_at max_uses : ℕ) → Registry → Saved TokenRow × Registry
  create_token id secret tenant_id expires_at max_uses r =
      let t : TokenRow = record {
        id = id;
        tenant_id = tenant_id;
        token_hash = hash secret;
        max_uses = max_uses;
        uses = 0;
        expires_at = expires_at;
        revoked_at = none;
      } in
      if max_uses == 0 || not (any (has_id tenant_id) r.db.tenants)
      then (rejected violation, r)
      else if any (λ u. text_eq u.token_hash (hash secret)) r.enrollment_tokens
      then (rejected key_conflict, r)
      else (saved t, record r { enrollment_tokens = t ∷ r.enrollment_tokens })

  abbrev pub redeems : Text → ℕ → TokenRow → Bool
  redeems secret now t =
      text_eq t.token_hash (hash secret)
      && not (is_some t.revoked_at)
      && ltb now t.expires_at
      && ltb t.uses t.max_uses

  -- `RegisterPeer(secret, name, publicKey)`
  unfoldable pub register_peer :
      (id : Text) (now : ℕ) (secret name public_key : Text) → Registry → Enrolled
  unfolding next_free_addr
  register_peer id now secret name public_key r =
      with_token id now name public_key (find (redeems secret now) r.enrollment_tokens) r
