-- ===== src/Control/Access/Tenants.antt =====
-- The tenants that internal/api/members.go and internal/api/tenants.go create.
use mesh2mesh.Base.{
  null, any, find, Text, lit, text_eq, ltb, leb, if◌then◌else◌, Bool-cases, ℕ, ◌+◌, ◌≡◌, refl, sym,
  subst, ◌⊎◌, inl, inr, true, false, not, ◌&&◌, ◌||◌, Option, none, some, List, ◌∷◌, arith,
}
use mesh2mesh.Control.Access.{
  MeRequest, TenantBody, InviteBody, MeRoute, my_tenants, get_my_tenant, my_tenant_peers,
  members_of_tenant, create_my_tenant, remove_from_tenant, create_tenant_invite,
  accept_tenant_invite, claim_tenant_of, Draws, is_positive, max_invite_ttl, max_invite_uses,
  role_of_body, ttl_of_body, uses_of_body, Guard, passed, stopped, member, remove_guarded,
  private_range, parse_cidr, user_of, owned_tenant, invite_guarded, handle, as_user,
}
use mesh2mesh.Control.Access.Guards.{unless_refused, as_user-served}
use mesh2mesh.Control.Addr.{Prefix}
use mesh2mesh.Control.Netip.{Addr, no_addr, v4, v6}
use mesh2mesh.Control.Registry.Ranges.{IsRange}
use mesh2mesh.Control.Store.{
  User, TenantRow, MemberRow, InviteRow, Database, role_owner, role_member, is_member, belongs_to,
  has_id, create_tenant, create_owned_tenant, owners, remove_found, remove_member, claim_tenant,
  refresh_members, list_memberships, accept_found, create_invite, opens, accept_invite,
}
use mesh2mesh.Control.Wire.RoundTrip.{IsAddr}

-- No tenant more, or one, with the id that was drawn and a range.
pub data IsGrown (id : Text) (before : List TenantRow) : List TenantRow → Type 0 where
  not_grown : IsGrown id before before
  grown : (t : TenantRow) → t.id ≡ id → IsRange t.cidr → IsGrown id before (t ∷ before)

module _ (trim_space : Text → Text) (parse_prefix : Text → Prefix ⊎ Text)
    (real : (s : Text) (p : Prefix) → parse_prefix s ≡ inl p → IsAddr p.addr) where
  private_range-IsRange :
      (s : Text) (o : Prefix ⊎ Text) (p : Prefix)
      → parse_prefix s ≡ o
      → private_range o ≡ inl p
      → IsRange p
  private_range-IsRange s (inr message) p e h = absurd (message_range h)
    where
      message_range : {m : Text} {p : Prefix} → inr m ≡ inl p → ⊥
      message_range e = cc
  private_range-IsRange s (inl q) p e h = of_addr q.addr q.bits (real s q e) h
    where
      of_addr :
          (a : Addr) (bits : ℕ)
          → IsAddr a
          → private_range (inl (record { addr = a; bits = bits })) ≡ inl p
          → IsRange p
      of_addr no_addr bits k h = elim k [ ]
      of_addr (v6 n) bits k h = ground arith
      of_addr (v4 n) bits k h = ground arith

  pub parse_cidr-IsRange :
      (raw : Text) (p : Prefix) → parse_cidr trim_space parse_prefix raw ≡ inl p → IsRange p
  unfolding parse_cidr
  parse_cidr-IsRange raw p h =
      let given = if null (trim_space raw) then lit "10.203.0.0/16" else raw in
      private_range-IsRange (trim_space given) (parse_prefix (trim_space given)) p refl h

remove_member-tenants :
    (tenant user : Text) (db : Database) → (remove_member tenant user db).1.tenants ≡ db.tenants
unfolding remove_member
remove_member-tenants tenant user db = removed (find (is_member tenant user) db.tenant_members)
  where
    removed : (o : Option MemberRow) → (remove_found o tenant user db).1.tenants ≡ db.tenants
    removed none = refl
    removed (some m) = elim (Bool-cases (text_eq m.role role_owner && leb (owners tenant db) 1)) [
      | inl last ↦ rw last refl
      | inr more ↦ rw more refl
    ]

claim_tenant-tenants :
    (tenant : Text) (u : User) (now : ℕ) (db : Database)
    → (claim_tenant tenant u now db).1.tenants ≡ db.tenants
unfolding claim_tenant
claim_tenant-tenants tenant u now db = elim (Bool-cases (any (has_id tenant) db.tenants)) [
  | inr unknown ↦ rw unknown refl
  | inl known ↦ elim (Bool-cases (any (belongs_to tenant) db.tenant_members)) [
    | inl taken ↦ rw (known, taken) refl
    | inr empty ↦ rw (known, empty) refl
  ]
]

module _ (hash : Text → List ℕ) where
  create_invite-tenants :
      (id code tenant role by : Text) (expires_at max_uses : ℕ) (db : Database)
      → (create_invite hash id code tenant role by expires_at max_uses db).1.tenants ≡ db.tenants
  unfolding create_invite
  create_invite-tenants id code tenant role by expires_at max_uses db =
      elim (Bool-cases (any (λ j. text_eq j.code_hash (hash code)) db.tenant_invites)) [
        | inl same ↦ rw same refl
        | inr new ↦ rw new refl
      ]

  accept_invite-tenants :
      (code : Text) (u : User) (now : ℕ) (db : Database)
      → (accept_invite hash code u now db).1.tenants ≡ db.tenants
  unfolding accept_invite
  accept_invite-tenants code u now db = accepted (find (opens hash code now) db.tenant_invites)
    where
      accepted : (o : Option InviteRow) → (accept_found o u now db).1.tenants ≡ db.tenants
      accepted none = refl
      accepted (some i) = elim (Bool-cases (any (is_member i.tenant_id u.id) db.tenant_members)) [
        | inl member ↦ rw member refl
        | inr new ↦ rw new refl
      ]

module _ (web_token : Text) (trim_space : Text → Text) (query_unescape : Text → Option Text)
    (hash : Text → List ℕ) (parse_prefix : Text → Prefix ⊎ Text)
    (real : (s : Text) (p : Prefix) → parse_prefix s ≡ inl p → IsAddr p.addr) where
  module _ (d : Draws) (u : User) (db : Database) where
    remove_guarded-tenants :
        (g : Guard) (target : Text) → (remove_guarded g target u db).1.tenants ≡ db.tenants
    remove_guarded-tenants (stopped r) target = refl
    remove_guarded-tenants (passed m) target =
        elim (Bool-cases (not (text_eq target u.id) && not (text_eq m.role role_owner))) [
          | inl forbidden ↦ rw forbidden refl
          | inr allowed ↦ rw allowed (remove_member-tenants m.tenant.id target db)
        ]

    invite_guarded-tenants :
        (g : Guard) (b : InviteBody)
        → (invite_guarded web_token trim_space query_unescape hash parse_prefix g b d u
            db).1.tenants
          ≡ db.tenants
    invite_guarded-tenants (stopped r) b = refl
    invite_guarded-tenants (passed m) b =
        unless_refused (λ x. x.tenants ≡ db.tenants) db
          (create_invite hash d.id d.code m.tenant.id (role_of_body b) u.id (d.now + ttl_of_body b)
            (uses_of_body b) db).1
          _ _ _ _ refl
          (create_invite-tenants hash d.id d.code m.tenant.id (role_of_body b) u.id
            (d.now + ttl_of_body b) (uses_of_body b) db)
          (not (text_eq (role_of_body b) role_member) && not (text_eq (role_of_body b) role_owner))
          (not (is_positive (ttl_of_body b)) || ltb max_invite_ttl (ttl_of_body b))
          (not (is_positive (uses_of_body b)) || ltb max_invite_uses (uses_of_body b))

    owned_tenant-IsGrown :
        (b : TenantBody) (raw : Text) (o : Prefix ⊎ Text)
        → parse_cidr trim_space parse_prefix raw ≡ o
        → IsGrown d.id db.tenants
            (owned_tenant web_token trim_space query_unescape hash parse_prefix b o d u
              db).1.tenants
    unfolding create_owned_tenant create_tenant
    owned_tenant-IsGrown b raw (inr message) e = not_grown
    owned_tenant-IsGrown b raw (inl cidr) e =
        grown _ refl (parse_cidr-IsRange trim_space parse_prefix real raw cidr e)

    unchanged-IsGrown :
        {after : List TenantRow} → after ≡ db.tenants → IsGrown d.id db.tenants after
    unchanged-IsGrown e = subst (IsGrown d.id db.tenants) (sym e) not_grown

    handle-IsGrown :
        (route : MeRoute)
        → IsGrown d.id db.tenants
            (handle web_token trim_space query_unescape hash parse_prefix route d u db).1.tenants
    unfolding handle member list_memberships refresh_members
    handle-IsGrown my_tenants = not_grown
    handle-IsGrown (my_tenant_peers id) = not_grown
    handle-IsGrown (members_of_tenant id) = not_grown
    handle-IsGrown (get_my_tenant id) = not_grown
    handle-IsGrown (create_my_tenant none) = not_grown
    handle-IsGrown (create_my_tenant (some b)) = elim (Bool-cases (null (trim_space b.name))) [
      | inl blank ↦ rw blank not_grown
      | inr has_name ↦
          rw has_name
            (owned_tenant-IsGrown b b.cidr (parse_cidr trim_space parse_prefix b.cidr) refl)
    ]
    handle-IsGrown (remove_from_tenant id user) =
        unchanged-IsGrown (remove_guarded-tenants (member id u false db) user)
    handle-IsGrown (create_tenant_invite id none) = not_grown
    handle-IsGrown (create_tenant_invite id (some b)) =
        unchanged-IsGrown (invite_guarded-tenants (member id u true db) b)
    handle-IsGrown (accept_tenant_invite none) = not_grown
    handle-IsGrown (accept_tenant_invite (some code)) =
        unchanged-IsGrown (accept_invite-tenants hash (trim_space code) u d.now db)
    handle-IsGrown (claim_tenant_of id) = unchanged-IsGrown (claim_tenant-tenants id u d.now db)

  pub as_user-IsGrown :
      (r : MeRequest) (route : MeRoute) (d : Draws) (db : Database)
      → IsGrown d.id db.tenants
          (as_user web_token trim_space query_unescape hash parse_prefix r route d db).1.tenants
  as_user-IsGrown r route d db =
      as_user-served web_token trim_space query_unescape hash parse_prefix
        (λ after. IsGrown d.id db.tenants after.tenants) r route d db not_grown
        (handle-IsGrown d (user_of web_token trim_space query_unescape hash parse_prefix r) db
          route)
