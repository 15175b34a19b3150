-- ===== src/Control/Store/Steps.antt =====
-- What each operation of internal/store/members.go keeps of the tables.
use mesh2mesh.Base.{
  any, find, Text, text_eq, text_eq_iff, leb, Bool-cases, clash, ℕ, ◌≡◌, refl, sym, ◌∙◌, subst, inl,
  inr, true, false, ◌&&◌, Option, none, some, List, map, arith,
}
use mesh2mesh.Control.Addr.{Prefix}
use mesh2mesh.Control.Store.{
  User, TenantRow, MemberRow, InviteRow, Database, Membership, StoreError, done, refused,
  role_owner, is_member, belongs_to, is_owner_of, invites_to, has_id, joined, get_membership,
  member_row, add_member, create_tenant, create_owned_tenant, owners, remove_found, remove_member,
  claim_tenant, use_up, accept_found, create_invite, opens, accept_invite,
}
use mesh2mesh.Control.Store.Counts.{any-map, any_implied, find-some}
use mesh2mesh.Control.Store.Owners.{
  IsOwned, member-belongs_to, add_member-IsOwned, delete_member-IsOwned,
}
use mesh2mesh.Control.Store.Uses.{has_invite_id, IsCounted, use_up-IsCounted, new_invite-IsCounted}

nobody :
    (tenant user : Text) (ms : List MemberRow)
    → any (belongs_to tenant) ms ≡ false
    → any (is_member tenant user) ms ≡ false
nobody tenant user ms e = elim (Bool-cases (any (is_member tenant user) ms)) [
  | inl hit ↦ absurd (
      clash e (
        any_implied (is_member tenant user) (belongs_to tenant)
          (λ m h. member-belongs_to tenant user m h) ms hit))
  | inr miss ↦ miss
]

role-owner :
    (m : MemberRow) (tenant : Text)
    → belongs_to tenant m ≡ true
    → m.role ≡ role_owner
    → is_owner_of tenant m ≡ true
role-owner m tenant b e = let r = (text_eq_iff m.role role_owner).1 e in ground arith

pub create_owned_tenant-IsOwned :
    (id : Text) (now : ℕ) (name : Text) (cidr : Prefix) (u : User) (db : Database)
    → any (belongs_to id) db.tenant_members ≡ false
    → IsOwned db
    → IsOwned (create_owned_tenant id now name cidr u db).1
unfolding create_owned_tenant create_tenant
create_owned_tenant-IsOwned id now name cidr u db absent h =
    let m = member_row id u role_owner now in
    add_member-IsOwned m (create_tenant id now name cidr db).1
      (nobody id u.id db.tenant_members absent)
      (inl (role-owner m id ((text_eq_iff id id).1 refl) refl))
      (record {
        members_owned = h.members_owned;
        invites_owned = h.invites_owned;
        member_once = h.member_once;
      })

pub remove_member-IsOwned :
    (tenant user : Text) (db : Database) → IsOwned db → IsOwned (remove_member tenant user db).1
unfolding remove_member
remove_member-IsOwned tenant user db h =
    removed (find (is_member tenant user) db.tenant_members) refl
  where
    removed :
        (o : Option MemberRow)
        → find (is_member tenant user) db.tenant_members ≡ o
        → IsOwned (remove_found o tenant user db).1
    removed none e = h
    removed (some m) e = elim (Bool-cases (text_eq m.role role_owner && leb (owners tenant db) 1)) [
      | inl last ↦ rw last h
      | inr more ↦ rw more (delete_member-IsOwned m tenant user db e more h)
    ]

pub claim_tenant-IsOwned :
    (tenant : Text) (u : User) (now : ℕ) (db : Database)
    → IsOwned db
    → IsOwned (claim_tenant tenant u now db).1
unfolding claim_tenant
claim_tenant-IsOwned tenant u now db h = elim (Bool-cases (any (has_id tenant) db.tenants)) [
  | inr unknown ↦ rw unknown h
  | inl known ↦ elim (Bool-cases (any (belongs_to tenant) db.tenant_members)) [
    | inl taken ↦ rw (known, taken) h
    | inr empty ↦
        rw (known, empty)
          (let m = member_row tenant u role_owner now in
            add_member-IsOwned m db (nobody tenant u.id db.tenant_members empty)
              (inl (role-owner m tenant ((text_eq_iff tenant tenant).1 refl) refl)) h)
  ]
]

-- An owner's membership is a row.
pub owner_row :
    (tenant user : Text) (db : Database) (m : Membership)
    → get_membership tenant user db ≡ done m
    → m.role ≡ role_owner
    → any (is_owner_of tenant) db.tenant_members ≡ true
unfolding get_membership
owner_row tenant user db m e role =
    found (find (has_id tenant) db.tenants) (find (is_member tenant user) db.tenant_members) refl e
  where
    role_of : {x y : Membership} → done x ≡ done y → x.role ≡ y.role
    role_of p = cc

    refused-done : {x : StoreError} {y : Membership} → refused x ≡ done y → ⊥
    refused-done p = cc

    found :
        (t : Option TenantRow) (o : Option MemberRow)
        → find (is_member tenant user) db.tenant_members ≡ o
        → joined t o ≡ done m
        → any (is_owner_of tenant) db.tenant_members ≡ true
    found none o f j = absurd (refused-done j)
    found (some t) none f j = absurd (refused-done j)
    found (some t) (some r) f j =
        let (theirs, present) = find-some (is_member tenant user) db.tenant_members r f in
        present (is_owner_of tenant)
          (role-owner r tenant (member-belongs_to tenant user r theirs) (role_of j ∙ role))

pub create_invite-IsOwned :
    (hash : Text → List ℕ) (id code tenant role by : Text) (expires_at max_uses : ℕ) (db : Database)
    → any (is_owner_of tenant) db.tenant_members ≡ true
    → IsOwned db
    → IsOwned (create_invite hash id code tenant role by expires_at max_uses db).1
unfolding create_invite
create_invite-IsOwned hash id code tenant role by expires_at max_uses db owner h =
    elim (Bool-cases (any (λ j. text_eq j.code_hash (hash code)) db.tenant_invites)) [
      | inl same ↦ rw same h
      | inr new ↦ rw new (record {
        members_owned = h.members_owned;
        invites_owned = λ t e. elim (Bool-cases (text_eq tenant t)) [
          | inl here ↦
              subst (λ t. any (is_owner_of t) db.tenant_members ≡ true)
                ((text_eq_iff tenant t).0 here) owner
          | inr other ↦ h.invites_owned t (rw other at e)
        ];
        member_once = h.member_once;
      })
    ]

used_up-IsOwned :
    (id : Text) (db : Database)
    → IsOwned db
    → IsOwned (record db { tenant_invites = map (use_up id) db.tenant_invites })
used_up-IsOwned id db h = record {
  members_owned = h.members_owned;
  invites_owned = λ t e.
      h.invites_owned t
        (sym (any-map (invites_to t) (use_up id) (λ i. ground arith) db.tenant_invites) ∙ e);
  member_once = h.member_once;
}

-- Both of the tables' invariants.
abbrev pub IsDatabase : Database → Type 0
IsDatabase db = IsOwned db × IsCounted db.tenant_invites

pub accept_invite-IsDatabase :
    (hash : Text → List ℕ) (code : Text) (u : User) (now : ℕ) (db : Database)
    → IsDatabase db
    → IsDatabase (accept_invite hash code u now db).1
unfolding accept_invite
accept_invite-IsDatabase hash code u now db (h, c) =
    accepted (find (opens hash code now) db.tenant_invites) refl
  where
    accepted :
        (o : Option InviteRow)
        → find (opens hash code now) db.tenant_invites ≡ o
        → IsDatabase (accept_found o u now db).1
    accepted none f = (h, c)
    accepted (some i) f = elim (Bool-cases (any (is_member i.tenant_id u.id) db.tenant_members)) [
      | inl member ↦ rw member (h, c)
      | inr new ↦
          let (opened, present) = find-some (opens hash code now) db.tenant_invites i f in
          let owner =
            h.invites_owned i.tenant_id
              (present (invites_to i.tenant_id) ((text_eq_iff i.tenant_id i.tenant_id).1 refl)) in
          rw new (
            used_up-IsOwned i.id (add_member (member_row i.tenant_id u i.role now) db)
                (add_member-IsOwned (member_row i.tenant_id u i.role now) db new (inr owner) h),
            use_up-IsCounted (opens hash code now) db.tenant_invites i (λ j e. ground arith) f c,
          )
    ]

pub remove_member-invites :
    (tenant user : Text) (db : Database)
    → (remove_member tenant user db).1.tenant_invites ≡ db.tenant_invites
unfolding remove_member
remove_member-invites tenant user db = removed (find (is_member tenant user) db.tenant_members)
  where
    removed :
        (o : Option MemberRow)
        → (remove_found o tenant user db).1.tenant_invites ≡ db.tenant_invites
    removed none = refl
    removed (some m) = elim (Bool-cases (text_eq m.role role_owner && leb (owners tenant db) 1)) [
      | inl last ↦ rw last refl
      | inr more ↦ rw more refl
    ]

pub claim_tenant-invites :
    (tenant : Text) (u : User) (now : ℕ) (db : Database)
    → (claim_tenant tenant u now db).1.tenant_invites ≡ db.tenant_invites
unfolding claim_tenant
claim_tenant-invites tenant u now db = elim (Bool-cases (any (has_id tenant) db.tenants)) [
  | inr unknown ↦ rw unknown refl
  | inl known ↦ elim (Bool-cases (any (belongs_to tenant) db.tenant_members)) [
    | inl taken ↦ rw (known, taken) refl
    | inr empty ↦ rw (known, empty) refl
  ]
]

pub create_invite-IsCounted :
    (hash : Text → List ℕ) (id code tenant role by : Text) (expires_at max_uses : ℕ) (db : Database)
    → any (has_invite_id id) db.tenant_invites ≡ false
    → IsCounted db.tenant_invites
    → IsCounted (create_invite hash id code tenant role by expires_at max_uses db).1.tenant_invites
unfolding create_invite
create_invite-IsCounted hash id code tenant role by expires_at max_uses db new c =
    elim (Bool-cases (any (λ j. text_eq j.code_hash (hash code)) db.tenant_invites)) [
      | inl same ↦ rw same c
      | inr fresh ↦ rw fresh (new_invite-IsCounted _ db.tenant_invites new (omega arith) c)
    ]
