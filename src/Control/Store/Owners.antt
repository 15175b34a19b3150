-- ===== src/Control/Store/Owners.antt =====
-- The owners of the tenants of internal/store/members.go.
use mesh2mesh.Base.{
  length, any, keep, find, Text, text_eq, text_eq_iff, leb, Bool-cases, ℕ, suc, ◌≤◌, ◌≡◌, sym, ◌∙◌,
  subst, ◌⊎◌, inl, inr, Bool, true, false, not, ◌&&◌, some, List, ◌∷◌, arith,
}
use mesh2mesh.Control.Store.{
  User, MemberRow, Database, role_owner, is_member, belongs_to, is_owner_of, invites_to, add_member,
  owners, delete_member, refresh, refresh_members,
}
use mesh2mesh.Control.Store.Counts.{
  any-map, count-map, count_none, any_counted, any-keep, count-delete, count-delete_le, find-some,
  any-delete_one,
}

-- What holds of the three tables.
pub record IsOwned (db : Database) : Type 0 where
  pub members_owned :
      (tenant : Text)
      → any (belongs_to tenant) db.tenant_members ≡ true
      → any (is_owner_of tenant) db.tenant_members ≡ true
  pub invites_owned :
      (tenant : Text)
      → any (invites_to tenant) db.tenant_invites ≡ true
      → any (is_owner_of tenant) db.tenant_members ≡ true
  pub member_once :
      (tenant user : Text) → length (keep (is_member tenant user) db.tenant_members) ≤ 1

pub member-belongs_to :
    (tenant user : Text) (m : MemberRow)
    → is_member tenant user m ≡ true
    → belongs_to tenant m ≡ true
member-belongs_to tenant user m h = ground arith

any-tail :
    {A : Type 0} (p : A → Bool) (x : A) (xs : List A) → any p xs ≡ true → any p (x ∷ xs) ≡ true
any-tail p x xs h = ground arith

any-head : {A : Type 0} (p : A → Bool) (x : A) (xs : List A) → p x ≡ true → any p (x ∷ xs) ≡ true
any-head p x xs h = ground arith

any-cases :
    {A : Type 0} (p : A → Bool) (x : A) (xs : List A)
    → any p (x ∷ xs) ≡ true
    → (p x ≡ true) ⊎ (any p xs ≡ true)
any-cases p x xs h = ground arith

pub only_one : {n : ℕ} → n ≡ 0 → suc n ≤ 1
only_one e = omega (arith, e)

once_more :
    (m : MemberRow) (ms : List MemberRow) (tenant user : Text)
    → any (is_member m.tenant_id m.user_id) ms ≡ false
    → length (keep (is_member tenant user) ms) ≤ 1
    → length (keep (is_member tenant user) (m ∷ ms)) ≤ 1
once_more m ms tenant user absent l = elim (Bool-cases (is_member tenant user m)) [
  | inl hit ↦
      let same_tenant : m.tenant_id ≡ tenant = (text_eq_iff m.tenant_id tenant).0 (ground arith) in
      let same_user : m.user_id ≡ user = (text_eq_iff m.user_id user).0 (ground arith) in
      let none_there : any (is_member tenant user) ms ≡ false =
        subst (λ t. any (is_member t user) ms ≡ false) same_tenant
          (subst (λ u. any (is_member m.tenant_id u) ms ≡ false) same_user absent) in
      rw hit (only_one (count_none (is_member tenant user) ms none_there))
  | inr miss ↦ rw miss l
]

-- A new member of a tenant that has an owner, or who is its owner.
pub add_member-IsOwned :
    (m : MemberRow) (db : Database)
    → any (is_member m.tenant_id m.user_id) db.tenant_members ≡ false
    → ((is_owner_of m.tenant_id m ≡ true)
        ⊎ (any (is_owner_of m.tenant_id) db.tenant_members ≡ true))
    → IsOwned db
    → IsOwned (add_member m db)
add_member-IsOwned m db absent owned h = record {
  members_owned = λ t e. elim (any-cases (belongs_to t) m db.tenant_members e) [
    | inl new ↦ joins t ((text_eq_iff m.tenant_id t).0 new)
    | inr old ↦ any-tail (is_owner_of t) m db.tenant_members (h.members_owned t old)
  ];
  invites_owned = λ t e. any-tail (is_owner_of t) m db.tenant_members (h.invites_owned t e);
  member_once = λ t u. once_more m db.tenant_members t u absent (h.member_once t u);
}
  where
    joins : (t : Text) → m.tenant_id ≡ t → any (is_owner_of t) (m ∷ db.tenant_members) ≡ true
    joins t e =
        subst (λ t. any (is_owner_of t) (m ∷ db.tenant_members) ≡ true) e
          (elim owned [
            | inl itself ↦ any-head (is_owner_of m.tenant_id) m db.tenant_members itself
            | inr other ↦ any-tail (is_owner_of m.tenant_id) m db.tenant_members other
          ])

pub delete_member-IsOwned :
    (m : MemberRow) (tenant user : Text) (db : Database)
    → find (is_member tenant user) db.tenant_members ≡ some m
    → (text_eq m.role role_owner && leb (owners tenant db) 1) ≡ false
    → IsOwned db
    → IsOwned (delete_member tenant user db)
delete_member-IsOwned m tenant user db found allowed h = record {
  members_owned = λ t e. kept t (
      h.members_owned t
        (any-keep (belongs_to t) (λ x. not (is_member tenant user x)) db.tenant_members e));
  invites_owned = λ t e. kept t (h.invites_owned t e);
  member_once = λ t u. omega (
    arith,
    count-delete_le (is_member t u) (λ x. not (is_member tenant user x)) db.tenant_members,
    h.member_once t u,
  );
}
  where
    kept :
        (t : Text)
        → any (is_owner_of t) db.tenant_members ≡ true
        → any (is_owner_of t) (delete_member tenant user db).tenant_members ≡ true
    kept t e = elim (Bool-cases (is_owner_of t m)) [
      | inr other ↦
          any-delete_one (is_owner_of t) (is_member tenant user) db.tenant_members m found
            (h.member_once tenant user) other e
      | inl owner ↦
          let (theirs, member_of) = find-some (is_member tenant user) db.tenant_members m found in
          let same : tenant ≡ t =
            sym ((text_eq_iff m.tenant_id tenant).0 (ground arith))
            ∙ (text_eq_iff m.tenant_id t).0 (ground arith) in
          let two : 2 ≤ owners tenant db = ground arith in
          let left = count-delete (is_owner_of tenant) (is_member tenant user) db.tenant_members in
          subst (λ t. any (is_owner_of t) (delete_member tenant user db).tenant_members ≡ true) same
            (any_counted (is_owner_of tenant) (delete_member tenant user db).tenant_members
              (omega (arith, left, two, h.member_once tenant user)))
    ]

pub refresh_members-IsOwned :
    (u : User) (db : Database) → IsOwned db → IsOwned (refresh_members u db)
unfolding refresh_members
refresh_members-IsOwned u db h = record {
  members_owned = λ t e.
      any-map (is_owner_of t) (refresh u) (λ m. ground arith) db.tenant_members
      ∙ h.members_owned t
          (sym (any-map (belongs_to t) (refresh u) (λ m. ground arith) db.tenant_members) ∙ e);
  invites_owned = λ t e.
      any-map (is_owner_of t) (refresh u) (λ m. ground arith) db.tenant_members
      ∙ h.invites_owned t e;
  member_once = λ t v. omega (
    arith,
    count-map (is_member t v) (refresh u) (λ m. ground arith) db.tenant_members,
    h.member_once t v,
  );
}
