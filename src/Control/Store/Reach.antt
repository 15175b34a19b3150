-- ===== src/Control/Store/Reach.antt =====
-- What the operations of internal/store/members.go make of the tables, in any order.
use mesh2mesh.Base.{any, Text, ℕ, ◌≡◌, sym, subst, false, List, [], arith}
use mesh2mesh.Control.Addr.{Prefix}
use mesh2mesh.Control.Store.{
  User, Database, Membership, done, role_owner, belongs_to, get_membership, create_tenant,
  create_owned_tenant, remove_member, claim_tenant, refresh_members, create_invite, accept_invite,
}
use mesh2mesh.Control.Store.Owners.{refresh_members-IsOwned}
use mesh2mesh.Control.Store.Steps.{
  create_owned_tenant-IsOwned, remove_member-IsOwned, claim_tenant-IsOwned, owner_row,
  create_invite-IsOwned, IsDatabase, accept_invite-IsDatabase, remove_member-invites,
  claim_tenant-invites, create_invite-IsCounted,
}
use mesh2mesh.Control.Store.Uses.{has_invite_id, IsCounted}

-- The databases that operations lead to. The ids that are drawn are new, and only an owner of a
-- tenant invites to it, as internal/api/members.go sees to.
pub data DatabaseReach (hash : Text → List ℕ) : Database → Type 0 where
  starts : DatabaseReach hash (record { tenants = []; tenant_members = []; tenant_invites = [] })
  creates :
      {db : Database} (id : Text) (now : ℕ) (name : Text) (cidr : Prefix)
      → DatabaseReach hash db
      → DatabaseReach hash (create_tenant id now name cidr db).1
  creates_owned :
      {db : Database} (id : Text) (now : ℕ) (name : Text) (cidr : Prefix) (u : User)
      → DatabaseReach hash db
      → any (belongs_to id) db.tenant_members ≡ false
      → DatabaseReach hash (create_owned_tenant id now name cidr u db).1
  removes :
      {db : Database} (tenant user : Text)
      → DatabaseReach hash db
      → DatabaseReach hash (remove_member tenant user db).1
  claims :
      {db : Database} (tenant : Text) (u : User) (now : ℕ)
      → DatabaseReach hash db
      → DatabaseReach hash (claim_tenant tenant u now db).1
  refreshes :
      {db : Database} (u : User) → DatabaseReach hash db → DatabaseReach hash (refresh_members u db)
  invites :
      {db : Database} (id code tenant role by : Text) (expires_at max_uses : ℕ) (m : Membership)
      → DatabaseReach hash db
      → get_membership tenant by db ≡ done m
      → m.role ≡ role_owner
      → any (has_invite_id id) db.tenant_invites ≡ false
      → DatabaseReach hash (create_invite hash id code tenant role by expires_at max_uses db).1
  accepts :
      {db : Database} (code : Text) (u : User) (now : ℕ)
      → DatabaseReach hash db
      → DatabaseReach hash (accept_invite hash code u now db).1

-- Whatever operations came before, in any order, each tenant with a member or an invite has an
-- owner, nobody is twice a member of a tenant, and no invite was used more often than it may be; if
-- the ids that the database draws are new and only owners invite to a tenant.
pub DatabaseReach-IsDatabase :
    {hash : Text → List ℕ} {db : Database} → DatabaseReach hash db → IsDatabase db
unfolding create_tenant create_owned_tenant remove_member claim_tenant refresh_members create_invite
DatabaseReach-IsDatabase starts = (
  record { members_owned = λ t e. e; invites_owned = λ t e. e; member_once = λ t u. omega arith },
  record { within = tt; id_once = λ id. omega arith },
)
DatabaseReach-IsDatabase (creates {db} id now name cidr reach) =
    let (h, c) = DatabaseReach-IsDatabase reach in
    (
      record {
        members_owned = h.members_owned;
        invites_owned = h.invites_owned;
        member_once = h.member_once;
      },
      c,
    )
DatabaseReach-IsDatabase (creates_owned {db} id now name cidr u reach new) =
    let (h, c) = DatabaseReach-IsDatabase reach in
    (create_owned_tenant-IsOwned id now name cidr u db new h, c)
DatabaseReach-IsDatabase (removes {db} tenant user reach) =
    let (h, c) = DatabaseReach-IsDatabase reach in
    (
      remove_member-IsOwned tenant user db h,
      subst IsCounted (sym (remove_member-invites tenant user db)) c,
    )
DatabaseReach-IsDatabase (claims {db} tenant u now reach) =
    let (h, c) = DatabaseReach-IsDatabase reach in
    (
      claim_tenant-IsOwned tenant u now db h,
      subst IsCounted (sym (claim_tenant-invites tenant u now db)) c,
    )
DatabaseReach-IsDatabase (refreshes {db} u reach) =
    let (h, c) = DatabaseReach-IsDatabase reach in (refresh_members-IsOwned u db h, c)
DatabaseReach-IsDatabase {hash}
      (invites {db} id code tenant role by expires_at max_uses m reach owner is_owner new) =
    let (h, c) = DatabaseReach-IsDatabase reach in
    (
      create_invite-IsOwned hash id code tenant role by expires_at max_uses db
          (owner_row tenant by db m owner is_owner) h,
      create_invite-IsCounted hash id code tenant role by expires_at max_uses db new c,
    )
DatabaseReach-IsDatabase {hash} (accepts {db} code u now reach) =
    accept_invite-IsDatabase hash code u now db (DatabaseReach-IsDatabase reach)
