-- ===== src/Control/Registry/Enrollment.antt =====
-- `RegisterPeer` of internal/store/store.go: what it answers, and the invariant of the tables.
use mesh2mesh.Base.{
  length, any, keep, find, All, Text, text_eq, Bool-cases, Option-cases, ℕ, ◌≤◌, ◌≡◌, inl, inr,
  Bool, true, false, Option, none, some, List, ◌∷◌, map,
}
use mesh2mesh.Control.Addr.{NextFree}
use mesh2mesh.Control.Netip.{Addr}
use mesh2mesh.Control.Registry.{
  TokenRow, PeerRow, Registry, token_invalid, key_conflict, exhausted, saved, rejected, scan_peer,
  has_mesh_ip, has_key,
}
use mesh2mesh.Control.Registry.Enroll.{
  used_addrs, spend, peer_row, Enrolled, at_address, redeems, register_peer,
}
use mesh2mesh.Control.Registry.Ranges.{
  IsRange, IsFree, IsInside, IsLowestFree, IsSearched, all_used, lowest_free, search-IsSearched,
  free-unused,
}
use mesh2mesh.Control.Registry.Rows.{All-find, find-any}
use mesh2mesh.Control.Store.{TenantRow, has_id}

abbrev pub of_token : Text → PeerRow → Bool
of_token id p = text_eq p.token_id id

abbrev pub has_token_id : Text → TokenRow → Bool
has_token_id id t = text_eq t.id id

-- The machines of a token are its uses.
pub record IsSpent (peers : List PeerRow) (t : TokenRow) : Type 0 where
  pub within : t.uses ≤ t.max_uses
  pub counted : length (keep (of_token t.id) peers) ≡ t.uses

-- A machine's address is inside the range of its tenant.
pub record IsPlaced (tenants : List TenantRow) (p : PeerRow) : Type 0 where
  pub tenant : TenantRow
  pub in_tenant : find (has_id p.tenant_id) tenants ≡ some tenant
  pub inside : IsInside tenant.cidr p.mesh_ip

pub record IsTables (tenants : List TenantRow) (tokens : List TokenRow) (peers : List PeerRow)
    : Type 0 where
  pub ranges : All (λ t. IsRange t.cidr) tenants
  pub token_tenants : All (λ t. any (has_id t.tenant_id) tenants ≡ true) tokens
  pub token_once : (id : Text) → length (keep (has_token_id id) tokens) ≤ 1
  pub spent : All (IsSpent peers) tokens
  pub placed : All (IsPlaced tenants) peers
  pub mesh_once : (tenant : Text) (ip : Addr) → length (keep (has_mesh_ip tenant ip) peers) ≤ 1
  pub key_once : (tenant key : Text) → length (keep (has_key tenant key) peers) ≤ 1

abbrev pub IsRegistry : Registry → Type 0
IsRegistry r = IsTables r.db.tenants r.enrollment_tokens r.peers

module _ (hash : Text → List ℕ) (id : Text) (now : ℕ) (secret name key : Text) (r : Registry) where
  -- What an enrollment may answer, and when.
  pub data IsEnrolled : Enrolled → Type 0 where
    no_token :
        find (redeems hash secret now) r.enrollment_tokens ≡ none
        → IsEnrolled (rejected token_invalid, r)
    no_address :
        (t : TokenRow) (tenant : TenantRow)
        → find (redeems hash secret now) r.enrollment_tokens ≡ some t
        → find (has_id t.tenant_id) r.db.tenants ≡ some tenant
        → ((a : Addr) → IsFree tenant.cidr (used_addrs t.tenant_id r) a → ⊥)
        → IsEnrolled (rejected exhausted, r)
    same_key :
        (t : TokenRow)
        → find (redeems hash secret now) r.enrollment_tokens ≡ some t
        → any (has_key t.tenant_id key) r.peers ≡ true
        → IsEnrolled (rejected key_conflict, r)
    enrolled :
        (t : TokenRow) (tenant : TenantRow) (ip : Addr)
        → find (redeems hash secret now) r.enrollment_tokens ≡ some t
        → find (has_id t.tenant_id) r.db.tenants ≡ some tenant
        → IsLowestFree tenant.cidr (used_addrs t.tenant_id r) ip
        → any (has_key t.tenant_id key) r.peers ≡ false
        → IsEnrolled (
          saved (scan_peer (peer_row id now t name key ip), tenant),
          record r {
            enrollment_tokens = map (spend t.id) r.enrollment_tokens;
            peers = peer_row id now t name key ip ∷ r.peers;
          },
        )

  module _ (t : TokenRow) (tenant : TenantRow)
      (redeemed : find (redeems hash secret now) r.enrollment_tokens ≡ some t)
      (its : find (has_id t.tenant_id) r.db.tenants ≡ some tenant) where
    at_address-IsEnrolled :
        {o : Option NextFree}
        → IsSearched tenant.cidr (used_addrs t.tenant_id r) o
        → IsEnrolled (at_address id now name key o t tenant r)
    at_address-IsEnrolled (all_used none_free) = no_address t tenant redeemed its none_free
    at_address-IsEnrolled (lowest_free ip low) =
        let unused = free-unused tenant.cidr (used_addrs t.tenant_id r) ip low.0 in
        elim (Bool-cases (any (has_key t.tenant_id key) r.peers)) [
          | inl taken ↦ rw (unused, taken) (same_key t redeemed taken)
          | inr new ↦ rw (unused, new) (enrolled t tenant ip redeemed its low new)
        ]

  -- With the invariant of the tables, an enrollment ends, in one of four ways. No token is valid for
  -- the secret; or its tenant has no address left; or it has a machine with that key: nothing
  -- changes then. Or the machine is added, at the lowest address that is free, and the token is used
  -- once more.
  pub register_peer-IsEnrolled :
      IsRegistry r → IsEnrolled (register_peer hash id now secret name key r)
  unfolding register_peer
  register_peer-IsEnrolled h =
      elim (Option-cases (find (redeems hash secret now) r.enrollment_tokens)) [
        | inl miss ↦ rw miss (no_token miss)
        | inr (t, hit) ↦
            let known =
              All-find (λ t. any (has_id t.tenant_id) r.db.tenants ≡ true) (redeems hash secret now)
                r.enrollment_tokens t h.token_tenants hit in
            let (tenant, its) = find-any (has_id t.tenant_id) r.db.tenants known in
            let range =
              All-find (λ t. IsRange t.cidr) (has_id t.tenant_id) r.db.tenants tenant h.ranges
                its in
            rw (hit, its)
              (at_address-IsEnrolled t tenant hit its
                (search-IsSearched tenant.cidr (used_addrs t.tenant_id r) range))
      ]
