-- ===== src/Frontend/Api/Forwarded.antt =====
-- The requests of web/src/frontend/api.ts at the server of web/src/backend.
use mesh2mesh.Backend.Config.{Config}
use mesh2mesh.Backend.Http.{User, Request, max_body_bytes}
use mesh2mesh.Backend.Index.{handle}
use mesh2mesh.Backend.Index.Access.{body_of, body_size, handle-forwards}
use mesh2mesh.Backend.Oidc.{Auth}
use mesh2mesh.Backend.Provider.{Platform, World}
use mesh2mesh.Backend.Proxy.{is_hex_or_dash, is_member_char, forward, upstream}
use mesh2mesh.Backend.Proxy.Patterns.{IsTenantId, tenant_path}
use mesh2mesh.Backend.Proxy.Routes.{ApiRoute}
use mesh2mesh.Backend.Session.{current_user, cross_origin}
use mesh2mesh.Backend.Static.{Files}
use mesh2mesh.Base.{
  all, Text, lit, is_hex, is_word, cut, ◌==◌, if◌then◌else◌, and_parts, encode_uri_component_plain,
  ◌≤◌, ◌≡◌, refl, sym, ap, ◌∙◌, subst, ◌⊎◌, Bool, true, false, not, ◌||◌, some, [], ◌∷◌, ◌++◌,
  append_assoc, append-nil, arith,
}
use mesh2mesh.Frontend.Api.{
  Call, get_me, get_health, get_config, get_tenants, get_peers, get_members, create_tenant,
  create_invite, accept_invite, claim_tenant, remove_member, tenant_url, call_path, call_method,
}
use mesh2mesh.Frontend.Api.Served.{
  is_dot_segment, HasIds, is_proxied, member_unreserved, tenant_url-path, call_IsServed,
}
use mesh2mesh.Frontend.Peer.{path}

-- Whether a path, after the part `seg` of its present segment, has a segment that URL parsing takes away
abbrev dots_from : Text → Text → Bool
dots_from seg [] = is_dot_segment seg
dots_from seg (c ∷ s) =
    let next = dots_from [] s in
    let more = dots_from (seg ++ c ∷ []) s in if c == b'/' then is_dot_segment seg || next else more

abbrev pub has_dot_segment : Text → Bool
has_dot_segment path = dots_from [] path

dots_from-segment :
    (seg s rest : Text)
    → all (λ c. not (c == b'/')) s ≡ true
    → dots_from seg (s ++ rest) ≡ dots_from (seg ++ s) rest
dots_from-segment seg [] rest h = rw (append-nil seg) refl
dots_from-segment seg (c ∷ s) rest h =
    let (one, more) = and_parts (not (c == b'/')) (all (λ c. not (c == b'/')) s) h in
    let other : (c == b'/') ≡ false = ground arith in
    rw other (
      dots_from-segment (seg ++ c ∷ []) s rest more
      ∙ ap (λ t. dots_from t rest) (append_assoc seg (c ∷ []) s))

hex_no_slash : (s : Text) → all is_hex_or_dash s ≡ true → all (λ c. not (c == b'/')) s ≡ true
unfolding is_hex_or_dash is_hex
hex_no_slash [] h = refl
hex_no_slash (c ∷ s) h = ground (arith, hex_no_slash s)

member_no_slash : (s : Text) → all is_member_char s ≡ true → all (λ c. not (c == b'/')) s ≡ true
unfolding is_member_char is_word
member_no_slash [] h = refl
member_no_slash (c ∷ s) h = ground (arith, member_no_slash s)

id_no_dots : (t : Text) → IsTenantId t → is_dot_segment t ≡ false
unfolding lit is_hex_or_dash is_hex
id_no_dots [] v = refl
id_no_dots (c ∷ s) (len, cs) = ground arith

-- The path of a tenant has no more dot segments than what follows.
tenant_path-dots :
    (t rest : Text)
    → IsTenantId t
    → has_dot_segment (lit "/api" ++ tenant_path t (b'/' ∷ rest)) ≡ has_dot_segment rest
unfolding lit
tenant_path-dots t rest v =
    dots_from-segment [] t (b'/' ∷ rest) (hex_no_slash t v.1) ∙ rw (id_no_dots t v) refl

tenant_url-dots :
    (t rest : Text)
    → IsTenantId t
    → has_dot_segment (tenant_url t ++ b'/' ∷ rest) ≡ has_dot_segment rest
tenant_url-dots t rest v =
    ap has_dot_segment (tenant_url-path t (b'/' ∷ rest) v) ∙ tenant_path-dots t rest v

member_path-dots :
    (user : Text)
    → all is_member_char user ≡ true
    → is_dot_segment user ≡ false
    → has_dot_segment (lit "members/" ++ user) ≡ false
unfolding lit
member_path-dots user cs h =
    ap (λ s. dots_from [] s) (sym (append-nil user))
    ∙ dots_from-segment [] user [] (member_no_slash user cs)
    ∙ h

call_path-dots : (c : Call) → is_proxied c ≡ true → HasIds c → has_dot_segment (call_path c) ≡ false
unfolding call_path lit
call_path-dots get_me p h = cc
call_path-dots get_config p h = cc
call_path-dots get_health p h = refl
call_path-dots get_tenants p h = refl
call_path-dots (create_tenant name cidr) p h = refl
call_path-dots (accept_invite code) p h = refl
call_path-dots (get_peers t) p h = tenant_url-dots t _ h
call_path-dots (get_members t) p h = tenant_url-dots t _ h
call_path-dots (create_invite t role ttl uses) p h = tenant_url-dots t _ h
call_path-dots (claim_tenant t) p h = tenant_url-dots t _ h
call_path-dots (remove_member t user) p (v, ne, cs, no_at, no_dots) =
    rw (encode_uri_component_plain user (member_unreserved user cs no_at))
      (tenant_url-dots t (lit "members/" ++ user) v ∙ member_path-dots user cs no_dots)

-- A request with the method and the path of a call that the application makes through the server is
-- forwarded to the control plane, with /api cut off its path, where its user is logged in, it has the
-- site's own origin unless its method is GET, its body is at most 65536 bytes, the tenant id is one of
-- the control plane, and the member id consists of letters, digits, "_", "." and "-" and is neither
-- "." nor ".."; and its path has no segment that URL parsing would take away.
pub call_IsForwarded :
    (pl : Platform) (fs : Files) (conf : Config) (w : World) (req : Request) (a : Auth)
    (user : User) (c : Call)
    → is_proxied c ≡ true
    → HasIds c
    → req.path ≡ call_path c
    → req.method ≡ call_method c
    → (current_user conf.oidc w.now req a).0 ≡ some user
    → (req.method ≡ lit "GET") ⊎ (cross_origin pl conf.oidc req ≡ false)
    → body_size req ≤ max_body_bytes
    → (path : Text) × (call_path c ≡ lit "/api" ++ path)
      × ((handle pl fs conf w req a).0 ≡ forward (upstream conf req path user (body_of req)))
      × (has_dot_segment (call_path c) ≡ false)
call_IsForwarded pl fs conf w req a user c p h at method known same small =
    let (path, served) = call_IsServed c p h in
    let (cut, slash, route) = served in
    (
      path,
      cut,
      handle-forwards pl fs conf w req a user path (at ∙ cut) slash known same
          (subst (λ m. ApiRoute m path) (sym method) route) small,
      call_path-dots c p h,
    )
