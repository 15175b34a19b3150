-- ===== src/Backend/Proxy/Routes.antt =====
-- The table of routes of web/src/backend/proxy.mjs, against a description without patterns.
use mesh2mesh.Backend.Proxy.{is_member_char, tenant, api_routes, fits, is_api_route}
use mesh2mesh.Backend.Proxy.Patterns.{
  IsTenantId, tenant_path, null-eq-nil, word-null, word_self, tenant-splits, tenant-tenant_path,
  either_word-splits, slash-append, plus-splits, plus-all,
}
use mesh2mesh.Base.{
  get_elem?, null, all, any, All, Pattern, full_match, word, plus, ◌then_match◌, either,
  word-append, word-splits, Text, lit, text_eq, text_eq_iff, text_eq_refl, Bool-cases, and_parts, ℕ,
  zero, suc, ◌≡◌, refl, sym, ap, ◌∙◌, ◌≢◌, ◌↔◌, ◌⊎◌, inl, inr, Bool, true, false, ◌||◌, some, List,
  [], ◌∷◌, ◌++◌, arith,
}

-- A request of the control plane's API that the web UI may make.
pub data ApiRoute (method path : Text) : Type 0 where
  health : method ≡ lit "GET" → path ≡ lit "/healthz" → ApiRoute method path
  tenants :
      (method ≡ lit "GET") ⊎ (method ≡ lit "POST")
      → path ≡ lit "/v1/me/tenants"
      → ApiRoute method path
  one_tenant :
      (id : Text)
      → IsTenantId id
      → method ≡ lit "GET"
      → path ≡ tenant_path id []
      → ApiRoute method path
  listing :
      (id : Text)
      → IsTenantId id
      → method ≡ lit "GET"
      → (path ≡ tenant_path id (lit "/peers")) ⊎ (path ≡ tenant_path id (lit "/members"))
      → ApiRoute method path
  one_member :
      (id : Text) (user : Text)
      → IsTenantId id
      → user ≢ []
      → all is_member_char user ≡ true
      → method ≡ lit "DELETE"
      → path ≡ tenant_path id (lit "/members/" ++ user)
      → ApiRoute method path
  action :
      (id : Text)
      → IsTenantId id
      → method ≡ lit "POST"
      → (path ≡ tenant_path id (lit "/invites")) ⊎ (path ≡ tenant_path id (lit "/claim"))
      → ApiRoute method path
  accept : method ≡ lit "POST" → path ≡ lit "/v1/me/invites/accept" → ApiRoute method path

-- A row of the table takes the request.
abbrev Hit : Text → Text → Text × Pattern → Type 0
Hit method path row = fits method path row ≡ true

row_parts :
    (method path : Text) (row : Text × Pattern)
    → Hit method path row
    → (method ≡ row.0) × (row.1 null path ≡ true)
unfolding full_match
row_parts method path (m, re) h =
    let (same, k) = and_parts (text_eq m method) (re null path) h in
    (sym ((text_eq_iff m method).0 same), k)

row-Hit :
    (method path : Text) (m : Text) (re : Pattern)
    → method ≡ m
    → re null path ≡ true
    → Hit method path (m, re)
unfolding full_match
row-Hit method path m re e k = rw (e, text_eq_refl m) k

any-here {ℓ} :
    {A : Type ℓ} (p : A → Bool) (x : A) (xs : List A) → p x ≡ true → any p (x ∷ xs) ≡ true
any-here p x xs h = rw h

any-there {ℓ} :
    {A : Type ℓ} (p : A → Bool) (x : A) (xs : List A) → any p xs ≡ true → any p (x ∷ xs) ≡ true
any-there p x xs h = ground arith

some_row : {a b : Text × Pattern} → some a ≡ some b → a ≡ b
some_row e = cc

-- A list of tests that one passes: what each test implies, one implies.
any-elim {ℓ κ} :
    {A : Type ℓ} {G : Type κ} (p : A → Bool) (xs : List A)
    → All (λ x. p x ≡ true → G) xs
    → any p xs ≡ true
    → G
any-elim p [] h e = absurd (not_true e)
  where
    not_true : false ≡ true → ⊥
    not_true e = cc
any-elim p (x ∷ xs) (f, h) e = elim (Bool-cases (p x)) [
  | inl here ↦ f here
  | inr later ↦ any-elim p xs h (rw later at e)
]

or_right : (x y : Bool) → y ≡ true → (x || y) ≡ true
or_right x y h = ground arith

-- What each row says, when it takes the request.
module _ (method path : Text) where
  health_row : Hit method path (lit "GET", word (lit "/healthz")) → ApiRoute method path
  health_row h = let (m, k) = row_parts method path _ h in health m (word-null _ path k)

  tenants_row :
      (m : Text)
      → (m ≡ lit "GET") ⊎ (m ≡ lit "POST")
      → Hit method path (m, word (lit "/v1/me/tenants"))
      → ApiRoute method path
  tenants_row m (inl e) h =
      let (e', k) = row_parts method path _ h in tenants (inl (e' ∙ e)) (word-null _ path k)
  tenants_row m (inr e) h =
      let (e', k) = row_parts method path _ h in tenants (inr (e' ∙ e)) (word-null _ path k)

  tenant_row : Hit method path (lit "GET", tenant) → ApiRoute method path
  tenant_row h =
      let (m, k) = row_parts method path _ h in
      let (id, r, v, e, n) = tenant-splits null path k in
      one_tenant id v m (e ∙ ap (tenant_path id) (null-eq-nil r n))

  listing_row :
      Hit method path (
        lit "GET",
        tenant
            then_match word (lit "/")
            then_match either (word (lit "peers")) (word (lit "members")),
      )
      → ApiRoute method path
  listing_row h =
      let (m, k) = row_parts method path _ h in
      let (id, r, v, e, n) = tenant-splits _ path k in
      elim (either_word-splits (lit "peers") (lit "members") r n) [
        | inl f ↦ listing id v m (inl (e ∙ ap (tenant_path id) (f ∙ slash-append.0)))
        | inr f ↦ listing id v m (inr (e ∙ ap (tenant_path id) (f ∙ slash-append.1)))
      ]

  member_row :
      Hit method path
        (lit "DELETE", tenant then_match word (lit "/members/") then_match plus is_member_char)
      → ApiRoute method path
  member_row h =
      let (m, k) = row_parts method path _ h in
      let (id, r, v, e, n) = tenant-splits _ path k in
      let (user, e', u) = word-splits (lit "/members/") r _ n in
      let (ne, cs) = plus-splits is_member_char user u in
      one_member id user v ne cs m (e ∙ ap (tenant_path id) e')

  action_row :
      Hit method path (
        lit "POST",
        tenant
            then_match word (lit "/")
            then_match either (word (lit "invites")) (word (lit "claim")),
      )
      → ApiRoute method path
  action_row h =
      let (m, k) = row_parts method path _ h in
      let (id, r, v, e, n) = tenant-splits _ path k in
      elim (either_word-splits (lit "invites") (lit "claim") r n) [
        | inl f ↦ action id v m (inl (e ∙ ap (tenant_path id) (f ∙ slash-append.2)))
        | inr f ↦ action id v m (inr (e ∙ ap (tenant_path id) (f ∙ slash-append.3)))
      ]

  accept_row :
      Hit method path (lit "POST", word (lit "/v1/me/invites/accept")) → ApiRoute method path
  accept_row h = let (m, k) = row_parts method path _ h in accept m (word-null _ path k)

  suffix_hit :
      (id : Text)
      → IsTenantId id
      → (a b : Text) {c d : Text} → lit "/" ++ a ≡ c
      → lit "/" ++ b ≡ d
      → (path ≡ tenant_path id c) ⊎ (path ≡ tenant_path id d)
      → (tenant then_match word (lit "/") then_match either (word a) (word b)) null path ≡ true
  suffix_hit id v a b p q (inl e) =
      rw (e, ← p)
        (tenant-tenant_path _ id (lit "/" ++ a) v
          ∙ word-append (lit "/") a _
          ∙ ap (λ t. t || word b null a) (word_self a))
  suffix_hit id v a b p q (inr e) =
      rw (e, ← q)
        (tenant-tenant_path _ id (lit "/" ++ b) v
          ∙ word-append (lit "/") b _
          ∙ or_right (word a null b) (word b null b) (word_self b))

  is_api_route_sound : is_api_route method path ≡ true → ApiRoute method path
  unfolding is_api_route
  is_api_route_sound h =
      any-elim (fits method path) api_routes
        (
          health_row,
          (
            tenants_row (lit "GET") (inl refl),
            (
              tenants_row (lit "POST") (inr refl),
              (tenant_row, (listing_row, (member_row, (action_row, (accept_row, tt))))),
            ),
          ),
        )
        h

  -- The row at an index takes the request.
  row_any :
      (rows : List (Text × Pattern)) (n : ℕ) {row : Text × Pattern}
      → get_elem? rows n ≡ some row
      → Hit method path row
      → any (fits method path) rows ≡ true
  row_any [] n e h = cc
  row_any (row ∷ rows) zero e h = any-here (fits method path) row rows (rw (← (some_row e)) at h)
  row_any (row ∷ rows) (suc n) e h = any-there (fits method path) row rows (row_any rows n e h)

  is_api_route_complete : ApiRoute method path → is_api_route method path ≡ true
  unfolding is_api_route
  is_api_route_complete (health m e) =
      row_any api_routes 0 refl (row-Hit method path _ _ m (rw e (word_self _)))
  is_api_route_complete (tenants (inl m) e) =
      row_any api_routes 1 refl (row-Hit method path _ _ m (rw e (word_self _)))
  is_api_route_complete (tenants (inr m) e) =
      row_any api_routes 2 refl (row-Hit method path _ _ m (rw e (word_self _)))
  is_api_route_complete (one_tenant id v m e) =
      row_any api_routes 3 refl
        (row-Hit method path _ tenant m (rw e (tenant-tenant_path null id [] v)))
  is_api_route_complete (listing id v m e) = row_any api_routes 4 refl (
      row-Hit method path _ _ m
        (suffix_hit id v (lit "peers") (lit "members") slash-append.0 slash-append.1 e))
  is_api_route_complete (one_member id user v ne cs m e) = row_any api_routes 5 refl (
      row-Hit method path _ _ m (
        rw e (
          tenant-tenant_path _ id (lit "/members/" ++ user) v
          ∙ word-append (lit "/members/") user _
          ∙ plus-all is_member_char user ne cs)))
  is_api_route_complete (action id v m e) = row_any api_routes 6 refl (
      row-Hit method path _ _ m
        (suffix_hit id v (lit "invites") (lit "claim") slash-append.2 slash-append.3 e))
  is_api_route_complete (accept m e) =
      row_any api_routes 7 refl (row-Hit method path _ _ m (rw e (word_self _)))

  -- The proxy's table takes exactly the requests of the description: the method and the whole path
  -- fit one of its rows, with a tenant id of 36 hexadecimal digits and dashes, and a member id of
  -- letters, digits, "_", ".", "@" and "-".
  pub is_api_route_iff : (is_api_route method path ≡ true) ↔ ApiRoute method path
  is_api_route_iff = (is_api_route_sound, is_api_route_complete)
