-- ===== src/Control/Access/Others.antt =====
-- What a user's request through internal/api/members.go may change for others.
use mesh2mesh.Base.{
  null, any, find, Text, text_eq, text_eq_iff, ltb, Bool-cases, clash, ℕ, ◌+◌, ◌≡◌, refl, sym, ap,
  ◌∙◌, subst, ◌⊎◌, inl, inr, true, false, not, ◌&&◌, ◌||◌, Option, none, some, List, [], ◌∷◌, map,
  arith,
}
use mesh2mesh.Control.Access.{
  MeRequest, TenantBody, InviteBody, MeRoute, my_tenants, get_my_tenant, my_tenant_peers,
  members_of_tenant, create_my_tenant, remove_from_tenant, create_tenant_invite,
  accept_tenant_invite, claim_tenant_of, Draws, is_positive, max_invite_ttl, max_invite_uses,
  role_of_body, ttl_of_body, uses_of_body, guard, member, remove_guarded, parse_cidr, user_of,
  owned_tenant, invite_guarded, handle, as_user,
}
use mesh2mesh.Control.Access.Guards.{
  role_of_row, role_in, owner_role, owns, find-other, get_membership-parts, remove_member-find,
  unless_refused, as_user-served,
}
use mesh2mesh.Control.Addr.{Prefix}
use mesh2mesh.Control.Store.{
  User, MemberRow, InviteRow, Database, Membership, StoreError, not_found, conflict, invite_invalid,
  last_owner, claimed, Outcome, done, refused, role_owner, role_member, is_member, belongs_to,
  has_id, get_membership, member_row, create_tenant, create_owned_tenant, claim_tenant, refresh,
  refresh_members, list_memberships, accept_found, create_invite, opens, accept_invite,
}

module _ (web_token : Text) (trim_space : Text → Text) (query_unescape : Text → Option Text)
    (hash : Text → List ℕ) (parse_prefix : Text → Prefix ⊎ Text) where
  -- The members of a tenant but the user.
  abbrev Kept : Text → Text → Database → Database → Type 0
  Kept tenant v db after =
      find (is_member tenant v) after.tenant_members ≡ find (is_member tenant v) db.tenant_members

  module _ (tenant v : Text) (u : User) (d : Draws) (db : Database)
      (other : text_eq u.id v ≡ false) where
    remove_guarded-Kept :
        (id target : Text)
        → owns tenant u.id db.tenant_members ≡ false
        → (o : Outcome Membership) → get_membership id u.id db ≡ o
        → Kept tenant v db (remove_guarded (guard o false) target u db).1
    remove_guarded-Kept id target not_owner (refused e) f = stops e
      where
        stops :
            (e : StoreError)
            → Kept tenant v db (remove_guarded (guard (refused e) false) target u db).1
        stops not_found = refl
        stops conflict = refl
        stops invite_invalid = refl
        stops last_owner = refl
        stops claimed = refl
    remove_guarded-Kept id target not_owner (done m) f = elim (Bool-cases (text_eq target u.id)) [
      | inl itself ↦ rw itself (
          remove_member-find tenant v m.tenant.id target db (
            inl
              (subst (λ x. text_eq x v ≡ false) (sym ((text_eq_iff target u.id).0 itself)) other)))
      | inr another ↦ elim (Bool-cases (text_eq m.role role_owner)) [
        | inr plain ↦ rw (another, plain) refl
        | inl owner ↦
            let (same, role) = get_membership-parts id u.id db m f in
            let owned : owns id u.id db.tenant_members ≡ true = ap owner_role role ∙ owner in
            let elsewhere : text_eq m.tenant.id tenant ≡ false =
              elim (Bool-cases (text_eq m.tenant.id tenant)) [
                | inl here ↦ absurd (
                    clash not_owner (
                      subst (λ t. owns t u.id db.tenant_members ≡ true)
                        (sym same ∙ (text_eq_iff m.tenant.id tenant).0 here) owned))
                | inr there ↦ there
              ] in
            rw (another, owner) (remove_member-find tenant v m.tenant.id target db (inr elsewhere))
      ]
    ]

    create_owned-Kept :
        (b : TenantBody) (o : Prefix ⊎ Text)
        → Kept tenant v db
            (owned_tenant web_token trim_space query_unescape hash parse_prefix b o d u db).1
    unfolding create_owned_tenant create_tenant
    create_owned-Kept b (inr message) = refl
    create_owned-Kept b (inl cidr) =
        find-other tenant v (member_row d.id u role_owner d.now) db.tenant_members other

    create_invite-members :
        (id code t role by : Text) (expires_at max_uses : ℕ)
        → (create_invite hash id code t role by expires_at max_uses db).1.tenant_members
          ≡ db.tenant_members
    unfolding create_invite
    create_invite-members id code t role by expires_at max_uses =
        elim (Bool-cases (any (λ j. text_eq j.code_hash (hash code)) db.tenant_invites)) [
          | inl same ↦ rw same refl
          | inr new ↦ rw new refl
        ]

    claim_tenant-Kept : (id : Text) → Kept tenant v db (claim_tenant id u d.now db).1
    unfolding claim_tenant
    claim_tenant-Kept id = elim (Bool-cases (any (has_id id) db.tenants)) [
      | inr unknown ↦ rw unknown refl
      | inl known ↦ elim (Bool-cases (any (belongs_to id) db.tenant_members)) [
        | inl taken ↦ rw (known, taken) refl
        | inr empty ↦
            rw (known, empty)
              (find-other tenant v (member_row id u role_owner d.now) db.tenant_members other)
      ]
    ]

    accept_invite-Kept : (code : Text) → Kept tenant v db (accept_invite hash code u d.now db).1
    unfolding accept_invite
    accept_invite-Kept code = accepted (find (opens hash code d.now) db.tenant_invites)
      where
        accepted : (o : Option InviteRow) → Kept tenant v db (accept_found o u d.now db).1
        accepted none = refl
        accepted (some i) = elim (Bool-cases (any (is_member i.tenant_id u.id) db.tenant_members)) [
          | inl member ↦ rw member refl
          | inr new ↦
              rw new (
                find-other tenant v (member_row i.tenant_id u i.role d.now) db.tenant_members other)
        ]

    invite_guarded-Kept :
        (b : InviteBody) (o : Outcome Membership)
        → Kept tenant v db
            (invite_guarded web_token trim_space query_unescape hash parse_prefix
              (guard o true)
              b
              d
              u
              db).1
    invite_guarded-Kept b (refused not_found) = refl
    invite_guarded-Kept b (refused conflict) = refl
    invite_guarded-Kept b (refused invite_invalid) = refl
    invite_guarded-Kept b (refused last_owner) = refl
    invite_guarded-Kept b (refused claimed) = refl
    invite_guarded-Kept b (done m) = elim (Bool-cases (text_eq m.role role_owner)) [
      | inr plain ↦ rw plain refl
      | inl owner ↦ rw owner (
          unless_refused (Kept tenant v db) db
            (create_invite hash d.id d.code m.tenant.id (role_of_body b) u.id
              (d.now + ttl_of_body b) (uses_of_body b) db).1
            _ _ _ _ refl
            (ap (find (is_member tenant v)) (
              create_invite-members d.id d.code m.tenant.id (role_of_body b) u.id
                (d.now + ttl_of_body b) (uses_of_body b)))
            (not (text_eq (role_of_body b) role_member)
              && not (text_eq (role_of_body b) role_owner))
            (not (is_positive (ttl_of_body b)) || ltb max_invite_ttl (ttl_of_body b))
            (not (is_positive (uses_of_body b)) || ltb max_invite_uses (uses_of_body b)))
    ]

    refresh-Kept :
        (ms : List MemberRow)
        → find (is_member tenant v) (map (refresh u) ms) ≡ find (is_member tenant v) ms
    refresh-Kept [] = refl
    refresh-Kept (m ∷ ms) = elim (Bool-cases (text_eq m.user_id u.id)) [
      | inr others ↦ let rest = refresh-Kept ms in rw (others, rest) refl
      | inl own ↦
          let not_v : is_member tenant v m ≡ false =
            ground
              (arith, text_eq_iff m.user_id u.id, text_eq_iff m.user_id v, text_eq_iff u.id v) in
          rw (own, not_v) (refresh-Kept ms)
    ]

    handle-Kept :
        (route : MeRoute)
        → owns tenant u.id db.tenant_members ≡ false
        → Kept tenant v db
            (handle web_token trim_space query_unescape hash parse_prefix route d u db).1
    unfolding handle member list_memberships refresh_members
    handle-Kept my_tenants n = refresh-Kept db.tenant_members
    handle-Kept (my_tenant_peers id) n = refl
    handle-Kept (members_of_tenant id) n = refl
    handle-Kept (get_my_tenant id) n = refl
    handle-Kept (create_my_tenant none) n = refl
    handle-Kept (create_my_tenant (some b)) n = elim (Bool-cases (null (trim_space b.name))) [
      | inl blank ↦ rw blank refl
      | inr has_name ↦ rw has_name (create_owned-Kept b (parse_cidr trim_space parse_prefix b.cidr))
    ]
    handle-Kept (remove_from_tenant id user) n =
        remove_guarded-Kept id user n (get_membership id u.id db) refl
    handle-Kept (create_tenant_invite id none) n = refl
    handle-Kept (create_tenant_invite id (some b)) n =
        invite_guarded-Kept b (get_membership id u.id db)
    handle-Kept (accept_tenant_invite none) n = refl
    handle-Kept (accept_tenant_invite (some code)) n = accept_invite-Kept (trim_space code)
    handle-Kept (claim_tenant_of id) n = claim_tenant-Kept id

  -- Of a tenant that a request's user does not own, whatever the request, everybody else is as much
  -- a member as before, and with the same role.
  pub as_user-others :
      (r : MeRequest) (route : MeRoute) (d : Draws) (db : Database) (tenant v : Text)
      → owns tenant
          (user_of web_token trim_space query_unescape hash parse_prefix r).id
          db.tenant_members
        ≡ false
      → text_eq (user_of web_token trim_space query_unescape hash parse_prefix r).id v ≡ false
      → role_in tenant v
          (as_user web_token trim_space query_unescape hash parse_prefix r route d
            db).1.tenant_members
        ≡ role_in tenant v db.tenant_members
  as_user-others r route d db tenant v not_owner other =
      as_user-served web_token trim_space query_unescape hash parse_prefix
        (λ after. role_in tenant v after.tenant_members ≡ role_in tenant v db.tenant_members) r
        route d db refl
        (ap role_of_row (
          handle-Kept tenant v (user_of web_token trim_space query_unescape hash parse_prefix r) d
            db other route not_owner))
