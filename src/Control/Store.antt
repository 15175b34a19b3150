-- ===== src/Control/Store.antt =====
-- internal/store/members.go: who belongs to which tenant, over the tables of
-- migrations/0001_init.sql and migrations/0004_tenant_members.sql. The times are in nanoseconds.
-- A query runs as one step; ids and times that the database draws are arguments. The ids of tenants
-- are texts, the canonical form of their uuids.
pub mod Counts
pub mod Owners
pub mod Uses
pub mod Steps
pub mod Reach
use mesh2mesh.Base.{
  length, any, keep, find, Text, lit, text_eq, ltb, leb, if◌then◌else◌, ℕ, ◌+◌, Bool, not, ◌&&◌,
  Option, none, some, List, [], ◌∷◌, ◌++◌, map,
}
use mesh2mesh.Control.Addr.{Prefix}

pub record User : Type 0 where
  pub id : Text
  pub email : Text
  pub name : Text

-- A row of `tenants`, and `Tenant`
pub record TenantRow : Type 0 where
  pub id : Text
  pub name : Text
  pub cidr : Prefix
  pub created_at : ℕ

-- A row of `tenant_members`
pub record MemberRow : Type 0 where
  pub tenant_id : Text
  pub user_id : Text
  pub email : Option Text
  pub name : Option Text
  pub role : Text
  pub created_at : ℕ

-- A row of `tenant_invites`
pub record InviteRow : Type 0 where
  pub id : Text
  pub tenant_id : Text
  pub code_hash : List ℕ
  pub role : Text
  pub created_by : Text
  pub max_uses : ℕ
  pub uses : ℕ
  pub expires_at : ℕ

pub record Database : Type 0 where
  pub tenants : List TenantRow
  pub tenant_members : List MemberRow
  pub tenant_invites : List InviteRow

pub record Membership : Type 0 where
  pub tenant : TenantRow
  pub role : Text

-- `ErrNotFound`, `ErrConflict`, `ErrInviteInvalid`, `ErrLastOwner`, `ErrClaimed`
pub data StoreError : Type 0 where
  not_found conflict invite_invalid last_owner claimed : StoreError

pub data Outcome (A : Type 0) : Type 0 where
  done : A → Outcome A
  refused : StoreError → Outcome A

abbrev pub role_owner : Text
role_owner = lit "owner"

abbrev pub role_member : Text
role_member = lit "member"

abbrev nullable : Text → Option Text
nullable [] = none
nullable s = some s

-- The conditions of the queries
abbrev pub is_member : Text → Text → MemberRow → Bool
is_member tenant_id user_id m = text_eq m.tenant_id tenant_id && text_eq m.user_id user_id

abbrev pub belongs_to : Text → MemberRow → Bool
belongs_to tenant_id m = text_eq m.tenant_id tenant_id

abbrev pub is_owner_of : Text → MemberRow → Bool
is_owner_of tenant_id m = text_eq m.tenant_id tenant_id && text_eq m.role role_owner

abbrev pub invites_to : Text → InviteRow → Bool
invites_to tenant_id i = text_eq i.tenant_id tenant_id

abbrev pub has_id : Text → TenantRow → Bool
has_id id t = text_eq t.id id

-- `GetMembership(tenantID, userID)`
abbrev pub joined : Option TenantRow → Option MemberRow → Outcome Membership
joined (some t) (some m) = done (record { tenant = t; role = m.role })
joined _ _ = refused not_found

unfoldable pub get_membership : (tenant_id user_id : Text) → Database → Outcome Membership
get_membership tenant_id user_id db =
    joined (find (has_id tenant_id) db.tenants)
      (find (is_member tenant_id user_id) db.tenant_members)

abbrev pub member_row : Text → User → Text → ℕ → MemberRow
member_row tenant_id u role now = record {
  tenant_id = tenant_id;
  user_id = u.id;
  email = nullable u.email;
  name = nullable u.name;
  role = role;
  created_at = now;
}

-- `addMember`, for a user who is not a member
abbrev pub add_member : MemberRow → Database → Database
add_member m db = record db { tenant_members = m ∷ db.tenant_members }

-- `CreateTenant(name, cidr)` of internal/store/store.go, whose name nothing keeps unique any more
unfoldable pub create_tenant :
    (id : Text) (now : ℕ) (name : Text) (cidr : Prefix) → Database → TenantRow × Database
create_tenant id now name cidr db =
    let t : TenantRow = record { id = id; name = name; cidr = cidr; created_at = now } in
    (t, record db { tenants = t ∷ db.tenants })

-- `CreateOwnedTenant(name, cidr, u)`
unfoldable pub create_owned_tenant :
    (id : Text) (now : ℕ) (name : Text) (cidr : Prefix) → User → Database → TenantRow × Database
unfolding create_tenant
create_owned_tenant id now name cidr u db =
    let (t, db') = create_tenant id now name cidr db in
    (t, add_member (member_row id u role_owner now) db')

-- `RemoveMember(tenantID, userID)`
abbrev pub owners : Text → Database → ℕ
owners tenant_id db = length (keep (is_owner_of tenant_id) db.tenant_members)

abbrev pub delete_member : Text → Text → Database → Database
delete_member tenant_id user_id db = record db {
  tenant_members = keep (λ m. not (is_member tenant_id user_id m)) db.tenant_members;
}

abbrev pub remove_found : Option MemberRow → Text → Text → Database → Outcome Unit × Database
remove_found none tenant_id user_id db = (refused not_found, db)
remove_found (some m) tenant_id user_id db =
    if text_eq m.role role_owner && leb (owners tenant_id db) 1
    then (refused last_owner, db)
    else (done tt, delete_member tenant_id user_id db)

unfoldable pub remove_member : (tenant_id user_id : Text) → Database → Outcome Unit × Database
remove_member tenant_id user_id db =
    remove_found (find (is_member tenant_id user_id) db.tenant_members) tenant_id user_id db

-- `ClaimTenant(tenantID, u)`
unfoldable pub claim_tenant :
    (tenant_id : Text) → User → (now : ℕ) → Database → Outcome Membership × Database
unfolding get_membership
claim_tenant tenant_id u now db =
    if not (any (has_id tenant_id) db.tenants)
    then (refused not_found, db)
    else if any (belongs_to tenant_id) db.tenant_members
    then (refused claimed, db)
    else let db' = add_member (member_row tenant_id u role_owner now) db in
      (get_membership tenant_id u.id db', db')

-- The update of `ListMemberships(u)`
abbrev pub refresh : User → MemberRow → MemberRow
refresh u m =
    if text_eq m.user_id u.id
    then record m { email = nullable u.email; name = nullable u.name }
    else m

unfoldable pub refresh_members : User → Database → Database
refresh_members u db = record db { tenant_members = map (refresh u) db.tenant_members }

-- Rows, oldest first: tables have the newest first.
abbrev oldest_first : {A : Type 0} → List A → List A
oldest_first [] = []
oldest_first (x ∷ xs) = oldest_first xs ++ x ∷ []

-- `ListMemberships(u)`
abbrev role_there : TenantRow → Option MemberRow → List Membership
role_there t none = []
role_there t (some m) = record { tenant = t; role = m.role } ∷ []

abbrev memberships_of : Text → List MemberRow → List TenantRow → List Membership
memberships_of user_id ms [] = []
memberships_of user_id ms (t ∷ ts) =
    memberships_of user_id ms ts ++ role_there t (find (is_member t.id user_id) ms)

unfoldable pub list_memberships : User → Database → List Membership × Database
unfolding refresh_members
list_memberships u db =
    let db' = refresh_members u db in (memberships_of u.id db'.tenant_members db'.tenants, db')

-- `ListMembers(tenantID)`, the owners first
abbrev pub list_members : Text → Database → List MemberRow
list_members tenant_id db =
    let members = keep (belongs_to tenant_id) db.tenant_members in
    oldest_first (keep (is_owner_of tenant_id) members)
    ++ oldest_first (keep (λ m. not (is_owner_of tenant_id m)) members)

-- `UPDATE tenant_invites SET uses = uses + 1 WHERE id = …`
abbrev pub use_up : Text → InviteRow → InviteRow
use_up id i = if text_eq i.id id then record i { uses = i.uses + 1 } else i

abbrev enter_tenant : InviteRow → User → ℕ → Database → Database
enter_tenant i u now db =
    if any (is_member i.tenant_id u.id) db.tenant_members then db else record db {
      tenant_members = member_row i.tenant_id u i.role now ∷ db.tenant_members;
      tenant_invites = map (use_up i.id) db.tenant_invites;
    }

abbrev pub accept_found : Option InviteRow → User → ℕ → Database → Outcome Membership × Database
accept_found none u now db = (refused invite_invalid, db)
accept_found (some i) u now db =
    let db' = enter_tenant i u now db in (get_membership i.tenant_id u.id db', db')

-- Invites, with the SHA-256 of a code
module _ (hash : Text → List ℕ) where
  -- `CreateInvite(tenantID, role, createdBy, ttl, maxUses)` with the code that it draws, which has
  -- a hash of its own
  unfoldable pub create_invite :
      (id code tenant_id role created_by : Text) (expires_at max_uses : ℕ)
      → Database
      → Outcome InviteRow × Database
  create_invite id code tenant_id role created_by expires_at max_uses db =
      let i : InviteRow = record {
        id = id;
        tenant_id = tenant_id;
        code_hash = hash code;
        role = role;
        created_by = created_by;
        max_uses = max_uses;
        uses = 0;
        expires_at = expires_at;
      } in
      if any (λ j. text_eq j.code_hash (hash code)) db.tenant_invites
      then (refused conflict, db)
      else (done i, record db { tenant_invites = i ∷ db.tenant_invites })

  abbrev pub opens : Text → ℕ → InviteRow → Bool
  opens code now i =
      text_eq i.code_hash (hash code) && ltb now i.expires_at && ltb i.uses i.max_uses

  -- `AcceptInvite(code, u)`
  unfoldable pub accept_invite :
      (code : Text) → User → (now : ℕ) → Database → Outcome Membership × Database
  unfolding get_membership
  accept_invite code u now db = accept_found (find (opens code now) db.tenant_invites) u now db
