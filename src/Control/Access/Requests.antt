-- ===== src/Control/Access/Requests.antt =====
-- What requests through internal/api/members.go lead to.
use mesh2mesh.Base.{
  null, any, Text, text_eq, text_eq_iff, ltb, Bool-cases, ℕ, ◌+◌, ◌≡◌, refl, sym, subst, ◌⊎◌, inl,
  inr, true, false, not, ◌&&◌, ◌||◌, Option, none, some, List, [],
}
use mesh2mesh.Control.Access.{
  MeRequest, InviteBody, MeRoute, my_tenants, get_my_tenant, my_tenant_peers, members_of_tenant,
  create_my_tenant, remove_from_tenant, create_tenant_invite, accept_tenant_invite, claim_tenant_of,
  Draws, is_positive, max_invite_ttl, max_invite_uses, role_of_body, ttl_of_body, uses_of_body,
  guard, member, remove_guarded, parse_cidr, user_of, owned_tenant, invite_guarded, handle, as_user,
}
use mesh2mesh.Control.Access.Guards.{get_membership-parts, unless_refused, as_user-served}
use mesh2mesh.Control.Addr.{Prefix}
use mesh2mesh.Control.Store.{
  User, Database, Membership, not_found, conflict, invite_invalid, last_owner, claimed, Outcome,
  done, refused, role_owner, role_member, belongs_to, get_membership, create_tenant,
  list_memberships, create_invite,
}
use mesh2mesh.Control.Store.Reach.{
  DatabaseReach, starts, creates, creates_owned, removes, claims, refreshes, invites, accepts,
  DatabaseReach-IsDatabase,
}
use mesh2mesh.Control.Store.Steps.{IsDatabase}
use mesh2mesh.Control.Store.Uses.{has_invite_id}

module _ (web_token : Text) (trim_space : Text → Text) (query_unescape : Text → Option Text)
    (hash : Text → List ℕ) (parse_prefix : Text → Prefix ⊎ Text) where
  -- The databases that the two ways to set up a tenant and the requests lead to; the ids that they
  -- draw are new.
  pub data MeReach : Database → Type 0 where
    begins : MeReach (record { tenants = []; tenant_members = []; tenant_invites = [] })
    sets_up :
        {db : Database} (id : Text) (now : ℕ) (name : Text) (cidr : Prefix)
        → MeReach db
        → MeReach (create_tenant id now name cidr db).1
    asks :
        {db : Database} (r : MeRequest) (route : MeRoute) (d : Draws)
        → MeReach db
        → any (belongs_to d.id) db.tenant_members ≡ false
        → any (has_invite_id d.id) db.tenant_invites ≡ false
        → MeReach (as_user web_token trim_space query_unescape hash parse_prefix r route d db).1

  invite_guarded-DatabaseReach :
      (id : Text) (b : InviteBody) (d : Draws) (u : User) (db : Database) (o : Outcome Membership)
      → get_membership id u.id db ≡ o
      → any (has_invite_id d.id) db.tenant_invites ≡ false
      → DatabaseReach hash db
      → DatabaseReach hash
          (invite_guarded web_token trim_space query_unescape hash parse_prefix
            (guard o true)
            b
            d
            u
            db).1
  invite_guarded-DatabaseReach id b d u db (refused not_found) e new reach = reach
  invite_guarded-DatabaseReach id b d u db (refused conflict) e new reach = reach
  invite_guarded-DatabaseReach id b d u db (refused invite_invalid) e new reach = reach
  invite_guarded-DatabaseReach id b d u db (refused last_owner) e new reach = reach
  invite_guarded-DatabaseReach id b d u db (refused claimed) e new reach = reach
  invite_guarded-DatabaseReach id b d u db (done m) e new reach =
      elim (Bool-cases (text_eq m.role role_owner)) [
        | inr plain ↦ rw plain reach
        | inl owner ↦ rw owner (
            unless_refused (DatabaseReach hash) db
              (create_invite hash d.id d.code m.tenant.id (role_of_body b) u.id
                (d.now + ttl_of_body b) (uses_of_body b) db).1
              _ _ _ _ reach
              (subst
                (λ t.
                  DatabaseReach hash
                    (create_invite hash d.id d.code t (role_of_body b) u.id (d.now + ttl_of_body b)
                      (uses_of_body b) db).1)
                (sym (get_membership-parts id u.id db m e).0)
                (invites d.id d.code id (role_of_body b) u.id (d.now + ttl_of_body b)
                  (uses_of_body b) m reach e ((text_eq_iff m.role role_owner).0 owner) new))
              (not (text_eq (role_of_body b) role_member)
                && not (text_eq (role_of_body b) role_owner))
              (not (is_positive (ttl_of_body b)) || ltb max_invite_ttl (ttl_of_body b))
              (not (is_positive (uses_of_body b)) || ltb max_invite_uses (uses_of_body b)))
      ]

  handle-DatabaseReach :
      (route : MeRoute) (d : Draws) (u : User) (db : Database)
      → any (belongs_to d.id) db.tenant_members ≡ false
      → any (has_invite_id d.id) db.tenant_invites ≡ false
      → DatabaseReach hash db
      → DatabaseReach hash
          (handle web_token trim_space query_unescape hash parse_prefix route d u db).1
  unfolding handle member list_memberships
  handle-DatabaseReach my_tenants d u db new new' reach = refreshes u reach
  handle-DatabaseReach (my_tenant_peers id) d u db new new' reach = reach
  handle-DatabaseReach (members_of_tenant id) d u db new new' reach = reach
  handle-DatabaseReach (get_my_tenant id) d u db new new' reach = reach
  handle-DatabaseReach (create_my_tenant none) d u db new new' reach = reach
  handle-DatabaseReach (create_my_tenant (some b)) d u db new new' reach =
      elim (Bool-cases (null (trim_space b.name))) [
        | inl blank ↦ rw blank reach
        | inr has_name ↦ rw has_name (made (parse_cidr trim_space parse_prefix b.cidr))
      ]
    where
      made :
          (o : Prefix ⊎ Text)
          → DatabaseReach hash
              (owned_tenant web_token trim_space query_unescape hash parse_prefix b o d u db).1
      made (inr message) = reach
      made (inl cidr) = creates_owned d.id d.now (trim_space b.name) cidr u reach new
  handle-DatabaseReach (remove_from_tenant id user) d u db new new' reach =
      removed (get_membership id u.id db)
    where
      removed :
          (o : Outcome Membership) → DatabaseReach hash (remove_guarded (guard o false) user u db).1
      removed (refused not_found) = reach
      removed (refused conflict) = reach
      removed (refused invite_invalid) = reach
      removed (refused last_owner) = reach
      removed (refused claimed) = reach
      removed (done m) =
          elim (Bool-cases (not (text_eq user u.id) && not (text_eq m.role role_owner))) [
            | inl forbidden ↦ rw forbidden reach
            | inr allowed ↦ rw allowed (removes m.tenant.id user reach)
          ]
  handle-DatabaseReach (create_tenant_invite id none) d u db new new' reach = reach
  handle-DatabaseReach (create_tenant_invite id (some b)) d u db new new' reach =
      invite_guarded-DatabaseReach id b d u db (get_membership id u.id db) refl new' reach
  handle-DatabaseReach (accept_tenant_invite none) d u db new new' reach = reach
  handle-DatabaseReach (accept_tenant_invite (some code)) d u db new new' reach =
      accepts (trim_space code) u d.now reach
  handle-DatabaseReach (claim_tenant_of id) d u db new new' reach = claims id u d.now reach

  MeReach-DatabaseReach : {db : Database} → MeReach db → DatabaseReach hash db
  MeReach-DatabaseReach begins = starts
  MeReach-DatabaseReach (sets_up id now name cidr reach) =
      creates id now name cidr (MeReach-DatabaseReach reach)
  MeReach-DatabaseReach (asks {db} r route d reach new new') =
      let before = MeReach-DatabaseReach reach in
      as_user-served web_token trim_space query_unescape hash parse_prefix (DatabaseReach hash) r
        route d db before
        (handle-DatabaseReach route d
          (user_of web_token trim_space query_unescape hash parse_prefix r) db new new' before)

  -- After any requests for users, and tenants set up in between, in any order, each tenant with a
  -- member or an invite has an owner, nobody is twice a member of a tenant, and no invite was used
  -- more often than it may be; if the ids that are drawn are new.
  pub MeReach-IsDatabase : {db : Database} → MeReach db → IsDatabase db
  MeReach-IsDatabase reach = DatabaseReach-IsDatabase (MeReach-DatabaseReach reach)
