-- ===== src/Backend/Proxy/Meets.antt =====
-- How web/src/backend/proxy.mjs and internal/api/members.go meet: the headers of the one are read by
-- the other.
use mesh2mesh.Backend.Config.{Config}
use mesh2mesh.Backend.Http.{User, Request}
use mesh2mesh.Backend.Proxy.{Upstream, upstream}
use mesh2mesh.Base.{
  null, all, Text, lit, text_eq_iff, is_visible, drop_end, ltb, ◌==◌, if◌then◌else◌, within,
  and_parts, ◌or◌, encode_uri_component, encode_uri_component-visible, ℕ, ◌≡◌, refl, ap, ◌⊎◌, Bool,
  true, false, ◌||◌, Option, none, some, List, [], ◌∷◌, ◌++◌, arith,
}
use mesh2mesh.Control.Access.{
  handle, user_of, MeRequest, MeRoute, Draws, cut_prefix, from_web, as_user,
}
use mesh2mesh.Control.Addr.{Prefix}
use mesh2mesh.Control.Store.{Database}
use mesh2mesh.Control.Store.{User as StoreUser}

-- A header on its way from `fetch` to net/http. White space at its ends is cut off. `fetch` writes
-- each character as one byte, and throws if one is above U+00FF: so the others above U+007F arrive as
-- bytes that are not UTF-8, and such a value has no text there, nor has one with a control character.
abbrev is_http_space : ℕ → Bool
is_http_space c = c == 9 || c == 10 || c == 13 || c == 32

abbrev cut_front : Text → Text
cut_front [] = []
cut_front (c ∷ s) = if is_http_space c then cut_front s else c ∷ s

abbrev header_text : Text → Option Text
header_text v = if all (λ c. c == 9 || within 32 126 c) v then some v else none

abbrev pub header_value : Text → Option Text
header_value s = header_text (drop_end is_http_space (cut_front s))

infixl 1 ◌>>=◌
abbrev ◌>>=◌ : {A B : Type 0} → Option A → (A → Option B) → Option B
none >>= f = none
some a >>= f = f a

-- The headers of what the proxy sends, as the control plane finds them
unfoldable pub me_request : Upstream → Option MeRequest
me_request up = do
  authorization ← header_value up.authorization
  user_id ← header_value up.user
  user_email ← header_value up.user_email
  user_name ← header_value up.user_name
  some (record {
    authorization = authorization;
    user_id = user_id;
    user_email = user_email;
    user_name = user_name;
  })

drop_end-visible : (s : Text) → all is_visible s ≡ true → drop_end is_http_space s ≡ s
drop_end-visible [] h = refl
drop_end-visible (c ∷ []) h = ground arith
drop_end-visible (c ∷ d ∷ s) h =
    let (one, more) = and_parts (is_visible c) (all is_visible (d ∷ s)) h in
    rw (drop_end-visible (d ∷ s) more) refl

visible_text : (s : Text) → all is_visible s ≡ true → all (λ c. c == 9 || within 32 126 c) s ≡ true
visible_text [] h = refl
visible_text (c ∷ s) h = ground (arith, visible_text s)

cut_front-visible : (s : Text) → all is_visible s ≡ true → cut_front s ≡ s
cut_front-visible [] h = refl
cut_front-visible (c ∷ s) h = ground arith

header_value-visible : (s : Text) → all is_visible s ≡ true → header_value s ≡ some s
header_value-visible s h = rw (cut_front-visible s h, drop_end-visible s h, visible_text s h) refl

header_value-bearer :
    (k : Text)
    → null k ≡ false
    → all is_visible k ≡ true
    → header_value (lit "Bearer " ++ k) ≡ some (lit "Bearer " ++ k)
unfolding lit
header_value-bearer [] n h = cc
header_value-bearer (c ∷ k) n h = rw (drop_end-visible (c ∷ k) h, visible_text (c ∷ k) h) refl

-- A user who is logged in at the web server, for the control plane
abbrev pub user_there : (trim_space : Text → Text) → User → StoreUser
user_there trim_space user = record {
  id = trim_space user.sub;
  email = trim_space (user.email or []);
  name = trim_space user.name;
}

cut_prefix-append : (p s : Text) → cut_prefix (p ++ s) p ≡ some s
cut_prefix-append [] [] = refl
cut_prefix-append [] (c ∷ s) = refl
cut_prefix-append (c ∷ p) s =
    let own : (c == c) ≡ true = ground arith in rw own (cut_prefix-append p s)

-- Whose headers arrive as they are: the id and the e-mail address are visible characters of ASCII,
-- and the name holds characters of Unicode.
pub record IsCarried (user : User) : Type 0 where
  pub id : all is_visible user.sub ≡ true
  pub email : all is_visible (user.email or []) ≡ true
  pub name : all (λ c. ltb c 1114112) user.name ≡ true

-- What the control plane finds of them
abbrev pub carried : Config → User → MeRequest
carried conf user = record {
  authorization = lit "Bearer " ++ conf.control_plane_token;
  user_id = user.sub;
  user_email = user.email or [];
  user_name = encode_uri_component user.name;
}

me_request-upstream :
    (conf : Config) (req : Request) (path : Text) (user : User) (body : Option (List ℕ))
    → null conf.control_plane_token ≡ false
    → all is_visible conf.control_plane_token ≡ true
    → IsCarried user
    → me_request (upstream conf req path user body) ≡ some (carried conf user)
unfolding me_request
me_request-upstream conf req path user body set visible whole =
    rw
      (
        header_value-bearer conf.control_plane_token set visible,
        header_value-visible user.sub whole.id,
        header_value-visible (user.email or []) whole.email,
        header_value-visible (encode_uri_component user.name)
            (encode_uri_component-visible user.name whole.name),
      )
      refl

module _ (trim_space : Text → Text) (query_unescape : Text → Option Text) (hash : Text → List ℕ)
    (parse_prefix : Text → Prefix ⊎ Text) (conf : Config) (user : User) where
  from_web-carried :
      null conf.control_plane_token ≡ false
      → from_web conf.control_plane_token trim_space query_unescape hash parse_prefix
          (carried conf user)
        ≡ true
  from_web-carried set =
      let bearer = cut_prefix-append (lit "Bearer ") conf.control_plane_token in
      let same = (text_eq_iff conf.control_plane_token conf.control_plane_token).1 refl in
      rw (bearer, set, same) refl

  user_of-carried :
      query_unescape (encode_uri_component user.name) ≡ some user.name
      → user_of conf.control_plane_token trim_space query_unescape hash parse_prefix
          (carried conf user)
        ≡ user_there trim_space user
  user_of-carried e = rw e refl

  as_user-carried :
      (route : MeRoute) (d : Draws) (db : Database)
      → null conf.control_plane_token ≡ false
      → null (trim_space user.sub) ≡ false
      → query_unescape (encode_uri_component user.name) ≡ some user.name
      → as_user conf.control_plane_token trim_space query_unescape hash parse_prefix
          (carried conf user)
          route
          d
          db
        ≡ handle conf.control_plane_token trim_space query_unescape hash parse_prefix route d
            (user_there trim_space user)
            db
  unfolding as_user
  as_user-carried route d db set named decodes =
      rw (set, from_web-carried set, named)
        (ap
          (λ u.
            handle conf.control_plane_token trim_space query_unescape hash parse_prefix route d u
              db)
          (user_of-carried decodes))

  -- What the proxy sends for a user who is logged in reaches a control plane with the same token as
  -- a request that is handled for just this user: with the same id, email and name, less white space
  -- around them; where the token is set, it, the id and the email are visible characters of ASCII,
  -- the id is not blank, and `url.QueryUnescape` gives back the name that encodeURIComponent encoded.
  pub as_user-upstream :
      (req : Request) (path : Text) (body : Option (List ℕ)) (route : MeRoute) (d : Draws)
      (db : Database)
      → null conf.control_plane_token ≡ false
      → all is_visible conf.control_plane_token ≡ true
      → IsCarried user
      → null (trim_space user.sub) ≡ false
      → query_unescape (encode_uri_component user.name) ≡ some user.name
      → (sent : MeRequest) × (me_request (upstream conf req path user body) ≡ some sent)
        × (as_user conf.control_plane_token trim_space query_unescape hash parse_prefix sent route d
              db
            ≡ handle conf.control_plane_token trim_space query_unescape hash parse_prefix route d
                (user_there trim_space user)
                db)
  as_user-upstream req path body route d db set visible whole named decodes = (
    carried conf user,
    me_request-upstream conf req path user body set visible whole,
    as_user-carried route d db set named decodes,
  )
