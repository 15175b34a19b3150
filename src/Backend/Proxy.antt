-- ===== src/Backend/Proxy.antt =====
-- web/src/backend/proxy.mjs: the routes of the control plane that the server forwards.
pub mod Meets
pub mod Patterns
pub mod Routes
use mesh2mesh.Backend.Config.{Config}
use mesh2mesh.Backend.Http.{
  content_type, cache_control, User, error_json, raw_bytes, Request, send, send_json, read_body,
}
use mesh2mesh.Backend.Oidc.{Outcome, responds, throws}
use mesh2mesh.Base.{
  any, Pattern, full_match, word, times, plus, ◌then_match◌, either, Text, lit, text_eq, is_hex,
  is_word, ◌==◌, if◌then◌else◌, ◌or◌, is_some, encode_uri_component, ℕ, Bool, not, ◌&&◌, ◌||◌,
  Option, none, some, List, [], ◌∷◌, ◌++◌,
}

unfoldable pub is_hex_or_dash : ℕ → Bool
is_hex_or_dash c = is_hex c || c == b'-'

-- `[\w.@-]`
unfoldable pub is_member_char : ℕ → Bool
is_member_char c = is_word c || c == b'.' || c == b'@' || c == b'-'

abbrev pub tenant : Pattern
tenant = word (lit "/v1/me/tenants/") then_match times 36 is_hex_or_dash

abbrev pub api_routes : List (Text × Pattern)
api_routes =
    (lit "GET", word (lit "/healthz"))
    ∷ (lit "GET", word (lit "/v1/me/tenants"))
    ∷ (lit "POST", word (lit "/v1/me/tenants"))
    ∷ (lit "GET", tenant)
    ∷ (
      lit "GET",
      tenant
          then_match word (lit "/")
          then_match either (word (lit "peers")) (word (lit "members")),
    )
    ∷ (lit "DELETE", tenant then_match word (lit "/members/") then_match plus is_member_char)
    ∷ (
      lit "POST",
      tenant
          then_match word (lit "/")
          then_match either (word (lit "invites")) (word (lit "claim")),
    )
    ∷ (lit "POST", word (lit "/v1/me/invites/accept"))
    ∷ []

abbrev fits : Text → Text → Text × Pattern → Bool
fits method path (m, re) = text_eq m method && full_match re path

-- `apiRoutes.some(...)`
unfoldable pub is_api_route : Text → Text → Bool
is_api_route method path = any (fits method path) api_routes

-- The request to the control plane.
pub record Upstream : Type 0 where
  pub url : Text
  pub method : Text
  pub body : Option (List ℕ)
  pub content_type : Option Text
  pub authorization : Text
  pub user : Text
  pub user_email : Text
  pub user_name : Text

-- What a handler does next: end, or ask the control plane.
pub data Plan : Type 0 where
  done : Outcome → Plan
  forward : Upstream → Plan

abbrev pub upstream : Config → Request → Text → User → Option (List ℕ) → Upstream
upstream conf req path user body = record {
  url = conf.control_plane ++ path;
  method = req.method;
  body = body;
  content_type = if is_some body then some (lit "application/json") else none;
  authorization = lit "Bearer " ++ conf.control_plane_token;
  user = user.sub;
  user_email = user.email or [];
  user_name = encode_uri_component user.name;
}

abbrev with_body : Config → Request → Text → User → Option (List ℕ) → Plan
with_body conf req path user none =
    done (responds (send_json 413 (error_json (lit "request body too large"))))
with_body conf req path user (some body) = forward (upstream conf req path user (some body))

-- `proxy(req, res, path, user)`, up to the `fetch`
unfoldable pub proxy : Config → Request → Text → User → Plan
unfolding is_api_route
proxy conf req path user =
    if not (is_api_route req.method path)
    then done (responds (send_json 404 (error_json (lit "not an API route the web UI forwards"))))
    else if text_eq req.method (lit "POST")
    then with_body conf req path user (read_body req.chunks)
    else forward (upstream conf req path user none)

-- The control plane does not answer in time, answers, or breaks off within the body.
pub data Answer : Type 0 where
  unreachable : Answer
  answers : (status : ℕ) (type : Option Text) → List ℕ → Answer
  breaks_off : Answer

-- The rest of `proxy`
unfoldable pub relay_answer : Config → Answer → Outcome
relay_answer conf unreachable =
    responds
      (send_json 502 (error_json (lit "control plane unreachable at " ++ conf.control_plane)))
relay_answer conf (answers status type payload) = responds (
    send status (raw_bytes payload) (
      (content_type, (type or lit "application/json") ∷ [])
      ∷ (cache_control, lit "no-store" ∷ [])
      ∷ []))
relay_answer conf breaks_off = throws
