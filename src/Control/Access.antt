-- ===== src/Control/Access.antt =====
-- internal/api/members.go: the /v1/me routes, by which the web server acts for a user. The requests are what http.ServeMux makes of them; the numbers of a body are
-- words of 64 bits.
pub mod Guards
pub mod Others
pub mod Requests
pub mod Tenants
pub mod Unknown
use mesh2mesh.Base.{
  null, Text, lit, text_eq, ltb, ◌==◌, if◌then◌else◌, ℕ, ◌+◌, ◌*◌, ◌/◌, ◌%◌, ◌⊎◌, inl, inr, Bool,
  true, false, not, ◌&&◌, ◌||◌, Option, none, some, List, [], ◌∷◌, ◌++◌,
}
use mesh2mesh.Control.Addr.{Prefix, pow2, masked}
use mesh2mesh.Control.Netip.{Addr, no_addr, v4, v6, is_4}
use mesh2mesh.Control.Store.{
  User, MemberRow, InviteRow, Database, Membership, not_found, invite_invalid, last_owner, claimed,
  Outcome, done, refused, role_owner, role_member, get_membership, create_owned_tenant,
  remove_member, claim_tenant, list_memberships, list_members, create_invite, accept_invite,
}

-- The headers and the path values of a request
pub record MeRequest : Type 0 where
  pub authorization : Text
  pub user_id : Text
  pub user_email : Text
  pub user_name : Text

pub record TenantBody : Type 0 where
  pub name : Text
  pub cidr : Text

pub record InviteBody : Type 0 where
  pub role : Text
  pub ttl_seconds : ℕ
  pub max_uses : ℕ

-- What `decode` makes of a body, all zero when it is empty: `none` where it answers itself, with the
-- decoder's message, which is left out here.
pub data MeRoute : Type 0 where
  my_tenants : MeRoute
  get_my_tenant : (id : Text) → MeRoute
  my_tenant_peers : (id : Text) → MeRoute
  members_of_tenant : (id : Text) → MeRoute
  create_my_tenant : (body : Option TenantBody) → MeRoute
  remove_from_tenant : (id user : Text) → MeRoute
  create_tenant_invite : (id : Text) (body : Option InviteBody) → MeRoute
  accept_tenant_invite : (code : Option Text) → MeRoute
  claim_tenant_of : (id : Text) → MeRoute

-- `writeJSON`, `fail`, and `WriteHeader(http.StatusNoContent)`; `peers_of` is what `listPeers`
-- answers, which Machines has.
pub data Reply : Type 0 where
  memberships_view : List Membership → Reply
  members_view : List MemberRow → Reply
  peers_of : (id : Text) → Reply
  membership_view : (status : ℕ) → Membership → Reply
  invite_view : (status : ℕ) (code : Text) → InviteRow → Reply
  no_content : Reply
  fail : (status : ℕ) (message : Text) → Reply

-- What the database and the code draw anew for a request
pub record Draws : Type 0 where
  pub id : Text
  pub code : Text
  pub now : ℕ

abbrev pub cut_prefix : Text → Text → Option Text
cut_prefix s [] = some s
cut_prefix [] (c ∷ p) = none
cut_prefix (d ∷ s) (c ∷ p) = let rest = cut_prefix s p in if d == c then rest else none

abbrev pub word : ℕ
word = 18446744073709551616

-- `> 0` of a word with a sign
abbrev pub is_positive : ℕ → Bool
is_positive w = ltb 0 w && ltb w 9223372036854775808

abbrev pub second : ℕ
second = 1000000000

abbrev default_invite_ttl : ℕ
default_invite_ttl = 604800 * 1000000000

abbrev pub max_invite_ttl : ℕ
max_invite_ttl = 2592000 * 1000000000

abbrev pub max_invite_uses : ℕ
max_invite_uses = 100

-- The role, the time to live and the uses of an invite, with the defaults for what is not set
abbrev pub role_of_body : InviteBody → Text
role_of_body b = if null b.role then role_member else b.role

abbrev pub ttl_of_body : InviteBody → ℕ
ttl_of_body b = if b.ttl_seconds == 0 then default_invite_ttl else b.ttl_seconds * second % word

abbrev pub uses_of_body : InviteBody → ℕ
uses_of_body b = if b.max_uses == 0 then 1 else b.max_uses

-- `member(w, r, u, ownerOnly)`: the membership, or the answer
pub data Guard : Type 0 where
  passed : Membership → Guard
  stopped : Reply → Guard

abbrev pub no_such_tenant : Reply
no_such_tenant = fail 404 (lit "no such tenant")

abbrev pub guard : Outcome Membership → (owner_only : Bool) → Guard
guard (done m) owner_only =
    if owner_only && not (text_eq m.role role_owner)
    then stopped (fail 403 (lit "only owners of this tenant can do that"))
    else passed m
guard (refused not_found) owner_only = stopped no_such_tenant
guard (refused e) owner_only = stopped (fail 500 (lit "could not load tenant"))

pub member : Text → User → (owner_only : Bool) → Database → Guard
unfolding get_membership
member id u owner_only db = guard (get_membership id u.id db) owner_only

abbrev pub get_guarded : Guard → Reply
get_guarded (passed m) = membership_view 200 m
get_guarded (stopped r) = r

abbrev pub list_guarded : Guard → Reply → Reply
list_guarded (passed m) reply = reply
list_guarded (stopped r) reply = r

-- `removeMember`
abbrev removal_reply : Outcome Unit → Reply
removal_reply (done t) = no_content
removal_reply (refused not_found) = fail 404 (lit "no such member")
removal_reply (refused last_owner) =
    fail 409 (lit "the tenant would be left without an owner: invite another owner first")
removal_reply (refused e) = fail 500 (lit "could not remove member")

abbrev pub remove_guarded : Guard → (target : Text) → User → Database → Reply × Database
remove_guarded (stopped r) target u db = (r, db)
remove_guarded (passed m) target u db =
    if not (text_eq target u.id) && not (text_eq m.role role_owner)
    then (fail 403 (lit "only owners of this tenant can remove others"), db)
    else (
      removal_reply (remove_member m.tenant.id target db).0,
      (remove_member m.tenant.id target db).1,
    )

-- `claimTenant`
abbrev claim_reply : Outcome Membership → Reply
claim_reply (done m) = membership_view 200 m
claim_reply (refused not_found) = no_such_tenant
claim_reply (refused claimed) =
    fail 409 (lit "this tenant already has members: ask one of its owners for an invite")
claim_reply (refused e) = fail 500 (lit "could not claim tenant")

-- `acceptInvite`
abbrev accept_reply : Outcome Membership → Reply
accept_reply (done m) = membership_view 200 m
accept_reply (refused invite_invalid) =
    fail 404 (lit "this invite is invalid, expired or already used")
accept_reply (refused e) = fail 500 (lit "could not accept invite")

abbrev invite_reply : Text → Outcome InviteRow → Reply
invite_reply code (done i) = invite_view 201 code i
invite_reply code (refused e) = fail 500 (lit "could not create invite")

-- `parseCIDR` of internal/api/http.go, with `netip.ParsePrefix`, which gives an error's message, and
-- `strings.TrimSpace`
abbrev is_private : Addr → Bool
is_private (v4 n) =
    n / 16777216 == 10 || n / 1048576 == 172 * 16 + 1 || n / 65536 == 192 * 256 + 168
is_private (v6 n) = n / pow2 121 == 126
is_private no_addr = false

abbrev pub private_range : Prefix ⊎ Text → Prefix ⊎ Text
private_range (inr message) = inr (lit "cidr is not a valid prefix: " ++ message)
private_range (inl p) =
    if not (is_4 p.addr)
    then inr (lit "cidr must be IPv4")
    else if not (is_private p.addr)
    then inr (lit "cidr must be a private range (10/8, 172.16/12 or 192.168/16)")
    else if ltb 30 p.bits
    then inr (lit "cidr must be /30 or larger")
    else inl (masked p)

unfoldable pub parse_cidr :
    (trim_space : Text → Text) (parse_prefix : Text → Prefix ⊎ Text) → Text → Prefix ⊎ Text
parse_cidr trim_space parse_prefix raw =
    let given = if null (trim_space raw) then lit "10.203.0.0/16" else raw in
    private_range (parse_prefix (trim_space given))

-- The token of the server, and what Go's library does: `strings.TrimSpace`, `url.QueryUnescape`,
-- SHA-256, and `netip.ParsePrefix`.
module _ (web_token : Text) (trim_space : Text → Text) (query_unescape : Text → Option Text)
    (hash : Text → List ℕ) (parse_prefix : Text → Prefix ⊎ Text) where
  abbrev pub from_web : MeRequest → Bool
  from_web r = bears (cut_prefix r.authorization (lit "Bearer "))
    where
      bears : Option Text → Bool
      bears none = false
      bears (some got) = not (null web_token) && text_eq got web_token

  -- The user of `asUser`
  abbrev pub user_of : MeRequest → User
  user_of r = record {
    id = trim_space r.user_id;
    email = trim_space r.user_email;
    name = named (query_unescape r.user_name);
  }
    where
      named : Option Text → Text
      named none = []
      named (some name) = trim_space name

  abbrev pub owned_tenant : TenantBody → Prefix ⊎ Text → Draws → User → Database → Reply × Database
  owned_tenant b (inr message) d u db = (fail 400 message, db)
  owned_tenant b (inl cidr) d u db =
      let (t, db') = create_owned_tenant d.id d.now (trim_space b.name) cidr u db in
      (membership_view 201 (record { tenant = t; role = role_owner }), db')

  abbrev pub invite_guarded : Guard → InviteBody → Draws → User → Database → Reply × Database
  invite_guarded (stopped r) b d u db = (r, db)
  invite_guarded (passed m) b d u db =
      let role = role_of_body b in
      let ttl = ttl_of_body b in
      let max_uses = uses_of_body b in
      if not (text_eq role role_member) && not (text_eq role role_owner)
      then (fail 400 (lit "role must be member or owner"), db)
      else if not (is_positive ttl) || ltb max_invite_ttl ttl
      then (fail 400 (lit "ttl_seconds must be between 1 and 2592000"), db)
      else if not (is_positive max_uses) || ltb max_invite_uses max_uses
      then (fail 400 (lit "max_uses must be between 1 and 100"), db)
      else let (o, db') =
          create_invite hash d.id d.code m.tenant.id role u.id (d.now + ttl) max_uses db in
        (invite_reply d.code o, db')

  -- The handlers, after `asUser`
  unfoldable pub handle : MeRoute → Draws → User → Database → Reply × Database
  unfolding member parse_cidr list_memberships
  handle my_tenants d u db =
      let (tenants_of_user, db') = list_memberships u db in (memberships_view tenants_of_user, db')
  handle (my_tenant_peers id) d u db = (list_guarded (member id u false db) (peers_of id), db)
  handle (members_of_tenant id) d u db =
      (list_guarded (member id u false db) (members_view (list_members id db)), db)
  handle (get_my_tenant id) d u db = (get_guarded (member id u false db), db)
  handle (create_my_tenant none) d u db = (fail 400 (lit "invalid JSON body"), db)
  handle (create_my_tenant (some b)) d u db =
      if null (trim_space b.name)
      then (fail 400 (lit "name is required"), db)
      else owned_tenant b (parse_cidr trim_space parse_prefix b.cidr) d u db
  handle (remove_from_tenant id user) d u db = remove_guarded (member id u false db) user u db
  handle (create_tenant_invite id none) d u db = (fail 400 (lit "invalid JSON body"), db)
  handle (create_tenant_invite id (some b)) d u db = invite_guarded (member id u true db) b d u db
  handle (accept_tenant_invite none) d u db = (fail 400 (lit "invalid JSON body"), db)
  handle (accept_tenant_invite (some code)) d u db =
      let (o, db') = accept_invite hash (trim_space code) u d.now db in (accept_reply o, db')
  handle (claim_tenant_of id) d u db =
      let (o, db') = claim_tenant id u d.now db in (claim_reply o, db')

  -- `asUser(h)`
  unfoldable pub as_user : MeRequest → MeRoute → Draws → Database → Reply × Database
  unfolding handle
  as_user r route d db =
      if null web_token
      then (fail 503 (lit "per-user routes need WEB_API_TOKEN on the control plane"), db)
      else if not (from_web r)
      then (fail 401 (lit "this route needs the web UI's token"), db)
      else if null (user_of r).id
      then (fail 400 (lit "X-Mesh2Mesh-User is required"), db)
      else handle route d (user_of r) db
