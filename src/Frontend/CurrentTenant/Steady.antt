-- ===== src/Frontend/CurrentTenant/Steady.antt =====
-- The choice of web/src/frontend/lib/current-tenant.ts, from one page to the next.
use mesh2mesh.Base.{
  get_elem?, find, find-holds, Text, text_eq_iff, text_eq_refl, Option-cases, ◌or_else◌, ◌≡◌, refl,
  sym, ap, ◌∙◌, subst, inl, inr, Option, none, some, List, [], ◌∷◌, arith,
}
use mesh2mesh.Frontend.Api.{Tenant}
use mesh2mesh.Frontend.CurrentTenant.{is_wanted, pick, current_tenant, remember}
use mesh2mesh.Frontend.Hooks.{Fetched, data_of, writable}

find_again :
    (w : Option Text) (ts : List Tenant) (t : Tenant)
    → find (is_wanted w) ts ≡ some t
    → find (is_wanted (some t.id)) ts ≡ some t
find_again none ts t h = ground (arith, find-holds (is_wanted none) ts t h)
find_again (some w) ts t h =
    subst (λ i. find (is_wanted (some i)) ts ≡ some t)
      (sym ((text_eq_iff t.id w).0 (find-holds (is_wanted (some w)) ts t h))) h

pick_head :
    (u t : Tenant) (ts : List Tenant) → some u ≡ some t → pick (some t.id) (some (u ∷ ts)) ≡ some t
pick_head u t ts e =
    let same : u ≡ t = cc in
    subst (λ v. pick (some t.id) (some (v ∷ ts)) ≡ some t) (sym same) (rw (text_eq_refl t.id) refl)

pick_default :
    (w : Option Text) (ts : List Tenant) (t : Tenant)
    → find (is_wanted w) ts ≡ none
    → get_elem? ts 0 ≡ some t
    → pick (some t.id) (some ts) ≡ some t
pick_default w [] t e h = h
pick_default w (u ∷ ts) t e h = pick_head u t ts h

pick_again :
    (w : Option Text) (ts : List Tenant) (t : Tenant)
    → pick w (some ts) ≡ some t
    → pick (some t.id) (some ts) ≡ some t
pick_again w ts t h = elim (Option-cases (find (is_wanted w) ts)) [
  | inl e ↦ pick_default w ts t e (sym (ap (λ o. o or_else get_elem? ts 0) e) ∙ h)
  | inr (v, e) ↦
      let f = e ∙ (sym (ap (λ o. o or_else get_elem? ts 0) e) ∙ h) in rw (find_again w ts t f) refl
]

pick_data_again :
    (w : Option Text) (ts : Option (List Tenant)) (t : Tenant)
    → pick w ts ≡ some t
    → pick (some t.id) ts ≡ some t
pick_data_again w none t h = h
pick_data_again w (some ts) t h = pick_again w ts t h

-- Once a tenant is shown, pages that name no tenant keep to it, where the browser stores it.
current_tenant_steady :
    (answer : Fetched (List Tenant)) (from_url kept : Option Text) (t : Tenant)
    → current_tenant answer from_url (writable kept) ≡ some t
    → current_tenant answer none
        (remember (current_tenant answer from_url (writable kept)) (writable kept))
      ≡ some t
unfolding current_tenant remember
current_tenant_steady answer from_url kept t h = rw h (pick_data_again _ (data_of answer) t h)
