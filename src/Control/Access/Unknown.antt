-- ===== src/Control/Access/Unknown.antt =====
-- Requests to internal/api/members.go about tenants of others.
use mesh2mesh.Base.{
  null, any, find, Text, ℕ, ◌≡◌, refl, ap, ◌∙◌, ◌⊎◌, Bool, true, false, Option, none, some, List,
  [], ◌∷◌, arith,
}
use mesh2mesh.Control.Access.{
  MeRequest, InviteBody, MeRoute, get_my_tenant, my_tenant_peers, members_of_tenant,
  remove_from_tenant, create_tenant_invite, members_view, peers_of, Draws, no_such_tenant, guard,
  member, get_guarded, list_guarded, remove_guarded, from_web, user_of, invite_guarded, handle,
  as_user,
}
use mesh2mesh.Control.Addr.{Prefix}
use mesh2mesh.Control.Store.{
  User, TenantRow, Database, not_found, refused, is_member, has_id, joined, get_membership,
  list_members,
}

-- The requests for a tenant, with a body that is read
pub data IsAbout (id : Text) : MeRoute → Type 0 where
  shows : IsAbout id (get_my_tenant id)
  shows_peers : IsAbout id (my_tenant_peers id)
  shows_members : IsAbout id (members_of_tenant id)
  removes_from : (target : Text) → IsAbout id (remove_from_tenant id target)
  invites_into : (body : InviteBody) → IsAbout id (create_tenant_invite id (some body))

find-none : {A : Type 0} (p : A → Bool) (xs : List A) → any p xs ≡ false → find p xs ≡ none
find-none p [] e = refl
find-none p (x ∷ xs) e =
    let here : p x ≡ false = ground arith in
    let later : any p xs ≡ false = ground arith in rw here (find-none p xs later)

get_membership_outsider :
    (id user : Text) (db : Database)
    → any (is_member id user) db.tenant_members ≡ false
    → get_membership id user db ≡ refused not_found
unfolding get_membership
get_membership_outsider id user db e =
    ap (joined (find (has_id id) db.tenants)) (find-none (is_member id user) db.tenant_members e)
    ∙ nobody_joined (find (has_id id) db.tenants)
  where
    nobody_joined : (t : Option TenantRow) → joined t none ≡ refused not_found
    nobody_joined none = refl
    nobody_joined (some t) = refl

module _ (web_token : Text) (trim_space : Text → Text) (query_unescape : Text → Option Text)
    (hash : Text → List ℕ) (parse_prefix : Text → Prefix ⊎ Text) where
  handle-unknown :
      (d : Draws) (u : User) (db : Database) (id : Text)
      → get_membership id u.id db ≡ refused not_found
      → {route : MeRoute} → IsAbout id route
      → handle web_token trim_space query_unescape hash parse_prefix route d u db
        ≡ (no_such_tenant, db)
  unfolding handle member
  handle-unknown d u db id absent shows = ap (λ o. (get_guarded (guard o false), db)) absent
  handle-unknown d u db id absent shows_peers =
      ap (λ o. (list_guarded (guard o false) (peers_of id), db)) absent
  handle-unknown d u db id absent shows_members =
      ap (λ o. (list_guarded (guard o false) (members_view (list_members id db)), db)) absent
  handle-unknown d u db id absent (removes_from target) =
      ap (λ o. remove_guarded (guard o false) target u db) absent
  handle-unknown d u db id absent (invites_into b) =
      ap
        (λ o.
          invite_guarded web_token trim_space query_unescape hash parse_prefix (guard o true) b d u
            db)
        absent

  -- A request of the web server, with a body that is read, for a user who is not a member of the
  -- tenant that it shows, of which it lists the members or the machines, from which it removes
  -- somebody or to which it invites, is answered that there is no such tenant, and changes nothing,
  -- whether or not there is one.
  pub as_user-unknown :
      (r : MeRequest) (route : MeRoute) (d : Draws) (db : Database) (id : Text)
      → IsAbout id route
      → null web_token ≡ false
      → from_web web_token trim_space query_unescape hash parse_prefix r ≡ true
      → null (user_of web_token trim_space query_unescape hash parse_prefix r).id ≡ false
      → any
          (is_member id (user_of web_token trim_space query_unescape hash parse_prefix r).id)
          db.tenant_members
        ≡ false
      → as_user web_token trim_space query_unescape hash parse_prefix r route d db
        ≡ (no_such_tenant, db)
  unfolding as_user
  as_user-unknown r route d db id about on token has_name outsider =
      rw (on, token, has_name)
        (handle-unknown d (user_of web_token trim_space query_unescape hash parse_prefix r) db id
          (get_membership_outsider id
            (user_of web_token trim_space query_unescape hash parse_prefix r).id db outsider)
          about)
