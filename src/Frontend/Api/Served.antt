-- ===== src/Frontend/Api/Served.antt =====
-- The requests of web/src/frontend/api.ts against the table of web/src/backend/proxy.mjs.
use mesh2mesh.Backend.Proxy.{is_hex_or_dash, is_member_char, tenant, is_api_route}
use mesh2mesh.Backend.Proxy.Patterns.{IsTenantId, tenant_path, tenant-tenant_path}
use mesh2mesh.Backend.Proxy.Routes.{ApiRoute, health, tenants, listing, one_member, action, accept}
use mesh2mesh.Base.{
  drop, null, all, full_match, word, plus, ◌then_match◌, word-append, plus-null, Text, lit, text_eq,
  starts_with, is_hex, is_word, ◌==◌, if◌then◌else◌, percent_utf8, is_unreserved,
  encode_uri_component, encode_uri_component_plain, ℕ, ◌≡◌, refl, sym, ap, ◌∙◌, ◌≢◌, ◌⊎◌, inl, inr,
  Bool, true, false, not, ◌&&◌, ◌||◌, [], ◌∷◌, ◌++◌, append_assoc, arith,
}
use mesh2mesh.Frontend.Api.{
  Call, get_me, get_health, get_config, get_tenants, get_peers, get_members, create_tenant,
  create_invite, accept_invite, claim_tenant, remove_member, tenant_url, call_path, call_method,
}
use mesh2mesh.Frontend.Peer.{path}

-- A segment that URL parsing takes away
abbrev pub is_dot_segment : Text → Bool
is_dot_segment s = text_eq s (lit ".") || text_eq s (lit "..")

-- The arguments of a call: a tenant id of the control plane, and a member id of the characters that
-- both encodeURIComponent and the proxy's table leave as they are, which is no dot segment.
abbrev pub HasIds : Call → Type 0
HasIds (get_peers t) = IsTenantId t
HasIds (get_members t) = IsTenantId t
HasIds (create_invite t role ttl uses) = IsTenantId t
HasIds (claim_tenant t) = IsTenantId t
HasIds (remove_member t user) =
    IsTenantId t
    × (user ≢ [])
    × (all is_member_char user ≡ true)
    × (all (λ c. not (c == b'@')) user ≡ true)
    × (is_dot_segment user ≡ false)
HasIds _ = Unit

-- The calls that go through the proxy: all but those that the server answers itself.
abbrev pub is_proxied : Call → Bool
is_proxied get_me = false
is_proxied get_config = false
is_proxied _ = true

-- The path at the control plane.
abbrev pub IsServed : Call → Text → Type 0
IsServed c path =
    (call_path c ≡ lit "/api" ++ path)
    × (starts_with (lit "/") path ≡ true)
    × ApiRoute (call_method c) path

hex_unreserved : (s : Text) → all is_hex_or_dash s ≡ true → all is_unreserved s ≡ true
unfolding is_hex_or_dash is_hex is_unreserved
hex_unreserved [] h = refl
hex_unreserved (c ∷ s) h = ground (arith, hex_unreserved s)

pub member_unreserved :
    (s : Text)
    → all is_member_char s ≡ true
    → all (λ c. not (c == b'@')) s ≡ true
    → all is_unreserved s ≡ true
unfolding is_member_char is_word is_unreserved
member_unreserved [] h k = refl
member_unreserved (c ∷ s) h k = ground (arith, member_unreserved s)

encode-tenant : (t : Text) → IsTenantId t → encode_uri_component t ≡ t
encode-tenant t v = encode_uri_component_plain t (hex_unreserved t v.1)

me_tenants : lit "/api/v1/me" ++ lit "/tenants/" ≡ lit "/api" ++ lit "/v1/me/tenants/"
unfolding lit
me_tenants = refl

pub tenant_url-path :
    (t rest : Text) → IsTenantId t → tenant_url t ++ rest ≡ lit "/api" ++ tenant_path t rest
tenant_url-path t rest v = rw (encode-tenant t v) (
    simp append_assoc (
      sym (append_assoc (lit "/api/v1/me") (lit "/tenants/") (t ++ rest))
      ∙ ap (λ p. p ++ (t ++ rest)) me_tenants
      ∙ append_assoc (lit "/api") (lit "/v1/me/tenants/") (t ++ rest)))

slash_path : (t rest : Text) → starts_with (lit "/") (tenant_path t rest) ≡ true
unfolding lit
slash_path t rest = refl

plain_paths :
    (lit "/api/healthz" ≡ lit "/api" ++ lit "/healthz")
    × (lit "/api/v1/me" ++ lit "/tenants" ≡ lit "/api" ++ lit "/v1/me/tenants")
    × (lit "/api/v1/me" ++ lit "/invites/accept" ≡ lit "/api" ++ lit "/v1/me/invites/accept")
    × (starts_with (lit "/") (lit "/healthz") ≡ true)
    × (starts_with (lit "/") (lit "/v1/me/tenants") ≡ true)
    × (starts_with (lit "/") (lit "/v1/me/invites/accept") ≡ true)
unfolding lit
plain_paths = (refl, refl, refl, refl, refl, refl)

under_tenant :
    (t rest : Text) {method : Text}
    → IsTenantId t
    → ApiRoute method (tenant_path t rest)
    → (tenant_url t ++ rest ≡ lit "/api" ++ tenant_path t rest)
      × (starts_with (lit "/") (tenant_path t rest) ≡ true)
      × ApiRoute method (tenant_path t rest)
under_tenant t rest v r = (tenant_url-path t rest v, slash_path t rest, r)

-- The path and the method of every such call are in the proxy's table.
pub call_IsServed : (c : Call) → is_proxied c ≡ true → HasIds c → (path : Text) × IsServed c path
unfolding call_path call_method
call_IsServed get_me p h = absurd (not_true p)
  where
    not_true : false ≡ true → ⊥
    not_true e = cc
call_IsServed get_config p h = absurd (not_true p)
  where
    not_true : false ≡ true → ⊥
    not_true e = cc
call_IsServed get_health p h = (lit "/healthz", (plain_paths.0, plain_paths.3, health refl refl))
call_IsServed get_tenants p h =
    (lit "/v1/me/tenants", (plain_paths.1, plain_paths.4, tenants (inl refl) refl))
call_IsServed (get_peers t) p h =
    (tenant_path t (lit "/peers"), under_tenant t _ h (listing t h refl (inl refl)))
call_IsServed (get_members t) p h =
    (tenant_path t (lit "/members"), under_tenant t _ h (listing t h refl (inr refl)))
call_IsServed (create_tenant name cidr) p h =
    (lit "/v1/me/tenants", (plain_paths.1, plain_paths.4, tenants (inr refl) refl))
call_IsServed (create_invite t role ttl uses) p h =
    (tenant_path t (lit "/invites"), under_tenant t _ h (action t h refl (inl refl)))
call_IsServed (accept_invite code) p h =
    (lit "/v1/me/invites/accept", (plain_paths.2, plain_paths.5, accept refl refl))
call_IsServed (claim_tenant t) p h =
    (tenant_path t (lit "/claim"), under_tenant t _ h (action t h refl (inr refl)))
call_IsServed (remove_member t user) p (v, ne, cs, no_at, no_dots) = (
  tenant_path t (lit "/members/" ++ user),
  rw (encode_uri_component_plain user (member_unreserved user cs no_at))
      (under_tenant t (lit "/members/" ++ user) v (one_member t user v ne cs refl refl)),
)

all-append_false : (p : ℕ → Bool) (s t : Text) → all p t ≡ false → all p (s ++ t) ≡ false
all-append_false p [] t h = h
all-append_false p (c ∷ s) t h = ground (arith, all-append_false p s t h)

abbrev pub HasAt : Text → Type 0
HasAt [] = ⊥
HasAt (c ∷ s) = (c ≡ b'@') ⊎ HasAt s

encoded_at : (user : Text) → HasAt user → all is_member_char (encode_uri_component user) ≡ false
unfolding encode_uri_component is_unreserved is_member_char is_word percent_utf8
encoded_at [] h = elim h [ ]
encoded_at (c ∷ s) (inl e) = rw e refl
encoded_at (c ∷ s) (inr h) =
    all-append_false is_member_char (if is_unreserved c then c ∷ [] else percent_utf8 c)
      (encode_uri_component s) (encoded_at s h)

plus-all-false : (c : ℕ → Bool) (s : Text) → all c s ≡ false → plus c null s ≡ false
unfolding plus
plus-all-false c [] h = refl
plus-all-false c (b ∷ s) h = plus-null c b s ∙ h

delete_rows :
    (text_eq (lit "GET") (lit "DELETE") ≡ false) × (text_eq (lit "POST") (lit "DELETE") ≡ false)
unfolding lit
delete_rows = (refl, refl)

drop_api : (p : Text) → drop 4 (lit "/api" ++ p) ≡ p
unfolding lit
drop_api p = refl

member_refused :
    (t e : Text)
    → IsTenantId t
    → all is_member_char e ≡ false
    → full_match
        (tenant then_match word (lit "/members/") then_match plus is_member_char)
        (tenant_path t (lit "/members/" ++ e))
      ≡ false
unfolding full_match
member_refused t e v h =
    tenant-tenant_path (λ s. (word (lit "/members/") then_match plus is_member_char) null s) t
      (lit "/members/" ++ e) v
    ∙ word-append (lit "/members/") e (plus is_member_char null)
    ∙ plus-all-false is_member_char e h

remove_member_path :
    (t user : Text)
    → IsTenantId t
    → drop 4 (call_path (remove_member t user))
      ≡ tenant_path t (lit "/members/" ++ encode_uri_component user)
unfolding call_path
remove_member_path t user v =
    ap (drop 4) (tenant_url-path t (lit "/members/" ++ encode_uri_component user) v) ∙ drop_api _

and_false : (b : Bool) → b && false || false ≡ false
and_false b = ground arith

-- A member id with an "@" is sent with "%40" for it, which no row of the proxy's table takes: the
-- server refuses to remove such a member, although the table has "@" among the characters of an id.
pub remove_member_at :
    (t user : Text)
    → IsTenantId t
    → HasAt user
    → is_api_route (call_method (remove_member t user)) (drop 4 (call_path (remove_member t user)))
      ≡ false
unfolding call_method is_api_route
remove_member_at t user v h =
    rw
      (
        remove_member_path t user v,
        delete_rows.0,
        delete_rows.1,
        member_refused t (encode_uri_component user) v (encoded_at user h),
      )
      (and_false _)
