-- ===== src/Control/Access/Guards.antt =====
-- Memberships and the operations behind internal/api/members.go.
use mesh2mesh.Base.{
  null, keep, find, Text, text_eq, text_eq_iff, leb, if◌then◌else◌, Bool-cases, ℕ, ◌≡◌, refl, sym,
  ap, ◌∙◌, ◌⊎◌, inl, inr, Bool, true, false, not, ◌&&◌, Option, none, some, List, [], ◌∷◌, arith,
}
use mesh2mesh.Control.Access.{MeRequest, MeRoute, Reply, Draws, from_web, user_of, handle, as_user}
use mesh2mesh.Control.Addr.{Prefix}
use mesh2mesh.Control.Store.{
  TenantRow, MemberRow, Database, Membership, StoreError, done, refused, role_owner, is_member,
  has_id, joined, get_membership, owners, remove_found, remove_member,
}
use mesh2mesh.Control.Store.Counts.{find-some}

abbrev pub role_of_row : Option MemberRow → Option Text
role_of_row none = none
role_of_row (some m) = some m.role

-- Whether a user owns a tenant, and the role of somebody in it
abbrev pub role_in : Text → Text → List MemberRow → Option Text
role_in tenant user ms = role_of_row (find (is_member tenant user) ms)

abbrev pub owner_role : Option Text → Bool
owner_role none = false
owner_role (some role) = text_eq role role_owner

abbrev pub owns : Text → Text → List MemberRow → Bool
owns tenant user ms = owner_role (role_in tenant user ms)

module _ {A : Type 0} (p q : A → Bool) (apart : (x : A) → p x ≡ true → q x ≡ false) where
  find-delete : (xs : List A) → find p (keep (λ x. not (q x)) xs) ≡ find p xs
  find-delete [] = refl
  find-delete (x ∷ xs) = elim (Bool-cases (p x)) [
    | inl hit ↦ rw (hit, apart x hit, hit) refl
    | inr miss ↦ elim (Bool-cases (q x)) [
      | inl goes ↦ rw (miss, goes) (find-delete xs)
      | inr stays ↦ rw (miss, stays, miss) (find-delete xs)
    ]
  ]

pub find-other :
    (tenant v : Text) (m : MemberRow) (ms : List MemberRow)
    → text_eq m.user_id v ≡ false
    → find (is_member tenant v) (m ∷ ms) ≡ find (is_member tenant v) ms
find-other tenant v m ms other = let no : is_member tenant v m ≡ false = ground arith in rw no refl

-- Everybody but the user whose membership is deleted, and everybody in other tenants.
find-delete_user :
    (tenant v t u : Text) (ms : List MemberRow)
    → text_eq u v ≡ false
    → find (is_member tenant v) (keep (λ m. not (is_member t u m)) ms)
      ≡ find (is_member tenant v) ms
find-delete_user tenant v t u ms other =
    find-delete (is_member tenant v) (is_member t u)
      (λ m h. ground (arith, text_eq_iff m.user_id v, text_eq_iff m.user_id u, text_eq_iff u v)) ms

find-delete_tenant :
    (tenant v t u : Text) (ms : List MemberRow)
    → text_eq t tenant ≡ false
    → find (is_member tenant v) (keep (λ m. not (is_member t u m)) ms)
      ≡ find (is_member tenant v) ms
find-delete_tenant tenant v t u ms other =
    find-delete (is_member tenant v) (is_member t u)
      (λ m h.
        ground
          (arith, text_eq_iff m.tenant_id tenant, text_eq_iff m.tenant_id t, text_eq_iff t tenant))
      ms

-- A membership is of the tenant that was asked for, with the role in its row.
pub get_membership-parts :
    (id user : Text) (db : Database) (m : Membership)
    → get_membership id user db ≡ done m
    → (m.tenant.id ≡ id) × (role_in id user db.tenant_members ≡ some m.role)
unfolding get_membership
get_membership-parts id user db m e =
    parts (find (has_id id) db.tenants) (find (is_member id user) db.tenant_members) refl refl e
  where
    done_path : {x y : Membership} → done x ≡ done y → x ≡ y
    done_path p = cc

    refused-done : {x : StoreError} {y : Membership} → refused x ≡ done y → ⊥
    refused-done p = cc

    parts :
        (t : Option TenantRow) (o : Option MemberRow)
        → find (has_id id) db.tenants ≡ t
        → find (is_member id user) db.tenant_members ≡ o
        → joined t o ≡ done m
        → (m.tenant.id ≡ id) × (role_in id user db.tenant_members ≡ some m.role)
    parts none o f g j = absurd (refused-done j)
    parts (some t) none f g j = absurd (refused-done j)
    parts (some t) (some r) f g j =
        let same = done_path j in
        (
          ap (λ x. x.tenant.id) (sym same)
              ∙ (text_eq_iff t.id id).0 (find-some (has_id id) db.tenants t f).0,
          ap role_of_row g ∙ ap (λ x. some x.role) same,
        )

pub remove_member-find :
    (tenant v t u : Text) (db : Database)
    → ((text_eq u v ≡ false) ⊎ (text_eq t tenant ≡ false))
    → find (is_member tenant v) (remove_member t u db).1.tenant_members
      ≡ find (is_member tenant v) db.tenant_members
unfolding remove_member
remove_member-find tenant v t u db other = removed (find (is_member t u) db.tenant_members)
  where
    removed :
        (o : Option MemberRow)
        → find (is_member tenant v) (remove_found o t u db).1.tenant_members
          ≡ find (is_member tenant v) db.tenant_members
    removed none = refl
    removed (some m) = elim (Bool-cases (text_eq m.role role_owner && leb (owners t db) 1)) [
      | inl last ↦ rw last refl
      | inr more ↦ rw more (elim other [
        | inl user ↦ find-delete_user tenant v t u db.tenant_members user
        | inr elsewhere ↦ find-delete_tenant tenant v t u db.tenant_members elsewhere
      ])
    ]

-- What holds before an operation and after it holds whichever of three checks refuses it.
pub unless_refused :
    (P : Database → Type 0) (db after : Database) (answer r1 r2 r3 : Reply)
    → P db
    → P after
    → (x y z : Bool)
    → P
        (if◌then◌else◌ {A = Reply × Database} x
          (r1, db)
          (if◌then◌else◌ {A = Reply × Database} y
            (r2, db)
            (if◌then◌else◌ {A = Reply × Database} z (r3, db) (answer, after)))).1
unless_refused P db after answer r1 r2 r3 before held true y z = before
unless_refused P db after answer r1 r2 r3 before held false true z = before
unless_refused P db after answer r1 r2 r3 before held false false true = before
unless_refused P db after answer r1 r2 r3 before held false false false = held

-- What holds before a request and after its handler holds after it, if it is served or not.
pub as_user-served :
    (web_token : Text) (trim_space : Text → Text) (query_unescape : Text → Option Text)
    (hash : Text → List ℕ) (parse_prefix : Text → Prefix ⊎ Text) (P : Database → Type 0)
    (r : MeRequest) (route : MeRoute) (d : Draws) (db : Database)
    → P db
    → P
        (handle web_token trim_space query_unescape hash parse_prefix route d
          (user_of web_token trim_space query_unescape hash parse_prefix r)
          db).1
    → P (as_user web_token trim_space query_unescape hash parse_prefix r route d db).1
unfolding as_user
as_user-served web_token trim_space query_unescape hash parse_prefix P r route d db before held =
    elim (Bool-cases (null web_token)) [
      | inl off ↦ rw off before
      | inr on ↦
          elim (Bool-cases (from_web web_token trim_space query_unescape hash parse_prefix r)) [
            | inr bare ↦ rw (on, bare) before
            | inl token ↦
                elim (Bool-cases
                  (null (user_of web_token trim_space query_unescape hash parse_prefix r).id)) [
                    | inl blank ↦ rw (on, token, blank) before
                    | inr known ↦ rw (on, token, known) held
                  ]
          ]
    ]
