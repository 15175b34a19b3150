-- ===== src/Backend/Tests.antt =====
-- Runs of the server's code in web/src/backend on concrete requests.
use mesh2mesh.Backend.Callback.{admit, take_tokens, callback_finish}
use mesh2mesh.Backend.Callback.Accepted.{IsExpected, callback_begin_lem}
use mesh2mesh.Backend.Callback.Finish.{IsGranted, IsDenied, callback_finish_cases}
use mesh2mesh.Backend.Callback.Interleaving.{
  Flow, began, logs_in, arrives, lands, Reach, start, next,
}
use mesh2mesh.Backend.Callback.Vouched.{IsSound, Reach-IsSound}
use mesh2mesh.Backend.Config.{Env, OidcConfig, Config, load}
use mesh2mesh.Backend.Config.Checks.{Checked, load-Checked}
use mesh2mesh.Backend.Cookies.{cookie_part, find_part, read_cookie}
use mesh2mesh.Backend.Cookies.RoundTrip.{
  is_cookie_char, IsClean, cookie_header, IsJar, read_cookie-cookie_header,
}
use mesh2mesh.Backend.Http.{
  content_type, cache_control, User, raw_bytes, Response, Request, send, max_body_bytes,
  concat_chunks, read_body,
}
use mesh2mesh.Backend.Http.Body.{read_body_lem}
use mesh2mesh.Backend.Index.{handle}
use mesh2mesh.Backend.Index.Access.{body_of, IsAdmitted, handle-IsAdmitted, handle-forwards}
use mesh2mesh.Backend.Index.CrossOrigin.{handle-cross_origin}
use mesh2mesh.Backend.Login.{accepted, state_of, new_pending, login, check_callback, callback_begin}
use mesh2mesh.Backend.Logout.{logout}
use mesh2mesh.Backend.Logout.Ends.{live_session-logout}
use mesh2mesh.Backend.Oidc.{
  Pending, Auth, Outcome, responds, session_cookie, create_auth, sweep, session, is_text,
  safe_return_to,
}
use mesh2mesh.Backend.Oidc.ReturnTo.{on_site, elsewhere, leads_to, IsPath, leads_to-safe_return_to}
use mesh2mesh.Backend.Oidc.Sessions.{live_session, session_lem, sweep_lem}
use mesh2mesh.Backend.Provider.{
  Claims, Platform, Metadata, answered, World, accept_document, discover, provider,
}
use mesh2mesh.Backend.Proxy.{is_api_route, Upstream, done, forward, upstream}
use mesh2mesh.Backend.Proxy.Routes.{ApiRoute, tenants, is_api_route_iff}
use mesh2mesh.Backend.Session.{current_user, cross_origin}
use mesh2mesh.Backend.Static.{Files, content_type_of, serve_read, serve_decoded, serve_static}
use mesh2mesh.Backend.Static.Confined.{IsBuilt, JoinsIndex, serve_static-IsBuilt}
use mesh2mesh.Base.{
  length, drop, All, Store, get, put, delete, IsMap, Text, lit, text_eq, starts_with, is_space,
  trim, drop_trailing_slashes, split, cut, leb, if◌then◌else◌, ◌+◌, ◌≤◌, ◌≡◌, refl, ◌↔◌, ◌⊎◌, inr,
  true, false, Option, none, some, [], ◌∷◌, ◌++◌, arith,
}

abbrev test_claims : Claims
test_claims = record {
  sub = lit "u1";
  name = some (lit "Ada");
  preferred_username = none;
  email = none;
  nonce = some (99 ∷ []);
}

-- A provider that signs the token "good".
abbrev test_verify : Text → Option Claims
test_verify t = if text_eq t (lit "good") then some test_claims else none

abbrev pub test_platform : Platform
test_platform = record {
  sha256_base64url = λ s. s;
  base64 = λ s. s;
  with_search = λ u q. u ++ b'?' ∷ q;
  origin = λ u. u;
  jwt_verify = λ t j i c. test_verify t;
}

abbrev test_oidc : OidcConfig
test_oidc = record {
  issuer = lit "https://id";
  internal_issuer = none;
  client_id = lit "web";
  client_secret = lit "x";
  public_url = lit "https://ui";
  session_ttl_ms = 1000;
}

abbrev pub test_config : Config
test_config = record {
  listen_port = 8080;
  control_plane = lit "http://cp";
  public_api_url = lit "http://cp";
  control_plane_token = lit "key";
  oidc = some test_oidc;
}

abbrev test_metadata : Metadata
test_metadata = record {
  issuer = lit "https://id";
  authorization_endpoint = lit "https://id/a";
  token_endpoint = lit "https://id/t";
  jwks_uri = lit "https://id/k";
  end_session_endpoint = none;
}

abbrev pub test_world : World
test_world = record {
  now = 1000;
  later = 1001;
  discovery = answered 200 (some test_metadata);
  exchange = λ r. answered 200 (some (record { id_token = some (lit "good") }));
  token = λ n. (97 + n) ∷ [];
}

abbrev login_request : Request
login_request = record {
  method = lit "GET";
  path = lit "/auth/login";
  query = (lit "returnTo", lit "/admin/machines") ∷ [];
  cookie = none;
  origin = none;
  chunks = [];
}

abbrev callback_request : Request
callback_request = record {
  method = lit "GET";
  path = lit "/auth/callback";
  query = (lit "state", lit "a") ∷ (lit "code", lit "x") ∷ [];
  cookie = some (lit "m2m_login=a");
  origin = none;
  chunks = [];
}

-- A login that is under way, as `login` stores it for `login_request`.
abbrev test_pending : Pending
test_pending = new_pending test_world login_request

abbrev after_login : Flow
after_login = record {
  auth = (login test_platform test_oidc test_world login_request create_auth).1;
  flights = [];
  begun = began (provider test_oidc test_world none) test_pending [];
  landed = 0;
}

abbrev after_callback : Flow
after_callback = record {
  auth = (callback_begin test_oidc 1000 callback_request after_login.auth).1;
  flights = (test_pending, lit "x") ∷ [];
  begun = after_login.begun;
  landed = 0;
}

abbrev after_landing : Flow
after_landing = record {
  auth =
      (callback_finish test_platform test_oidc test_world test_pending (lit "x")
        after_callback.auth).1;
  flights = [];
  begun = after_login.begun;
  landed = 1;
}

callback_is_accepted :
    (callback_begin test_oidc 1000 callback_request after_login.auth).0
    ≡ accepted test_pending (lit "x")
unfolding lit callback_begin check_callback login provider discover accept_document put get delete
    read_cookie find_part cookie_part cut trim split is_space drop_trailing_slashes safe_return_to
callback_is_accepted = refl

landing_reached : Reach test_platform test_oidc after_landing
landing_reached =
    next
      (next (next start (logs_in test_world login_request))
        (arrives 1000 callback_request test_pending (lit "x") callback_is_accepted))
      (lands test_world [] [] test_pending (lit "x") refl)

-- The login, its callback and the exchange of the code make a session.
landing_makes_session : length after_landing.auth.sessions ≡ 1
unfolding lit callback_begin check_callback callback_finish take_tokens admit login provider
    discover accept_document put get delete read_cookie find_part cookie_part cut trim split
    is_space drop_trailing_slashes safe_return_to
landing_makes_session = refl

Reach-IsSound_example : IsSound test_platform test_oidc after_landing
Reach-IsSound_example = Reach-IsSound test_platform test_oidc landing_reached

callback_begin_lem_example :
    (((callback_begin test_oidc 1000 callback_request after_login.auth).0
        ≡ accepted test_pending (lit "x"))
      ↔ IsExpected 1000 callback_request after_login.auth test_pending (lit "x"))
    × (get
          (state_of callback_request)
          (callback_begin test_oidc 1000 callback_request after_login.auth).1.logins
        ≡ none)
callback_begin_lem_example =
    callback_begin_lem test_oidc 1000 callback_request after_login.auth test_pending (lit "x")

callback_finish_cases_example :
    (IsDenied after_callback.auth
        (callback_finish test_platform test_oidc test_world test_pending
          (lit "x")
          after_callback.auth).1
      ⊎ IsGranted test_platform test_oidc test_world test_pending after_callback.auth
          (callback_finish test_platform test_oidc test_world test_pending
            (lit "x")
            after_callback.auth).1
          (callback_finish test_platform test_oidc test_world test_pending
            (lit "x")
            after_callback.auth).0)
    × ((callback_finish test_platform test_oidc test_world test_pending
          (lit "x")
          after_callback.auth).1.logins
        ≡ after_callback.auth.logins)
callback_finish_cases_example =
    callback_finish_cases test_platform test_oidc test_world test_pending (lit "x")
      after_callback.auth

abbrev pub test_user : User
test_user = record { sub = lit "u1"; name = lit "Ada"; email = none; username = none }

abbrev pub test_auth : Auth
test_auth = record {
  sessions = (lit "s", record { user = test_user; id_token = lit "good"; expires = 2000 }) ∷ [];
  logins = [];
  metadata = none;
}

abbrev pub post_request : Request
post_request = record {
  method = lit "POST";
  path = lit "/api/v1/me/tenants";
  query = [];
  cookie = some (lit "m2m_session=s");
  origin = some (lit "https://ui");
  chunks = (123 ∷ []) ∷ (125 ∷ []) ∷ [];
}

abbrev pub test_files : Files
test_files = record {
  dist_dir = lit "/d/";
  join_path = λ a b. a ++ drop 1 b;
  normalize = λ p. p;
  extname = λ p. [];
  decode_uri_component = λ p. some p;
  read_file = λ p. if text_eq p (lit "/d/a") then some (1 ∷ 2 ∷ []) else none;
}

abbrev forwarded : Upstream
forwarded =
    upstream test_config post_request (lit "/v1/me/tenants") test_user (body_of post_request)

pub post_is_known :
    (current_user test_config.oidc test_world.now post_request test_auth).0 ≡ some test_user
unfolding lit current_user session get delete read_cookie find_part cookie_part cut trim split
    is_space
post_is_known = refl

pub post_is_same_origin : cross_origin test_platform test_config.oidc post_request ≡ false
unfolding lit cross_origin drop_trailing_slashes
post_is_same_origin = refl

post_path : post_request.path ≡ lit "/api" ++ lit "/v1/me/tenants"
unfolding lit
post_path = refl

post_slash : starts_with (lit "/") (lit "/v1/me/tenants") ≡ true
unfolding lit
post_slash = refl

handle-forwards_example :
    (handle test_platform test_files test_config test_world post_request test_auth).0
    ≡ forward forwarded
handle-forwards_example =
    handle-forwards test_platform test_files test_config test_world post_request test_auth test_user
      (lit "/v1/me/tenants") post_path post_slash post_is_known (inr post_is_same_origin)
      (tenants (inr refl) refl) (ground arith)

post_is_forwarded :
    (handle test_platform test_files test_config test_world post_request test_auth).0
    ≡ forward forwarded
post_is_forwarded =
    handle-forwards test_platform test_files test_config test_world post_request test_auth test_user
      (lit "/v1/me/tenants") post_path post_slash post_is_known (inr post_is_same_origin)
      (tenants (inr refl) refl) (ground arith)

handle-IsAdmitted_example :
    IsAdmitted test_platform test_config test_world post_request test_auth forwarded
handle-IsAdmitted_example =
    handle-IsAdmitted test_platform test_files test_config test_world post_request test_auth
      forwarded post_is_forwarded

is_api_route_iff_example :
    (is_api_route (lit "POST") (lit "/v1/me/tenants") ≡ true)
    ↔ ApiRoute (lit "POST") (lit "/v1/me/tenants")
is_api_route_iff_example = is_api_route_iff (lit "POST") (lit "/v1/me/tenants")

leads_to-safe_return_to_example :
    (leads_to (safe_return_to (some (lit "//evil"))) ≡ on_site)
    × ((safe_return_to (some (lit "//evil")) ≡ lit "//evil") ↔ IsPath (lit "//evil"))
    × (leads_to (safe_return_to none) ≡ on_site)
unfolding lit
leads_to-safe_return_to_example = leads_to-safe_return_to (lit "//evil") refl

-- A tab between two slashes is kept, and a browser drops it.
tab_is_kept : leads_to (safe_return_to (some (b'/' ∷ 9 ∷ lit "/evil"))) ≡ elsewhere
unfolding leads_to safe_return_to lit
tab_is_kept = refl

session_lem_example :
    ((session 1000 post_request test_auth).0
      ≡ live_session 1000 (read_cookie post_request.cookie session_cookie) test_auth)
    × (live_session 1500 (some (lit "s")) (session 1000 post_request test_auth).1
        ≡ live_session 1500 (some (lit "s")) test_auth)
session_lem_example = session_lem 1000 1500 post_request (some (lit "s")) test_auth (omega arith)

one_key : IsMap test_auth.sessions
unfolding get
one_key = (refl, tt)

sweep_lem_example :
    All (λ e. 1000 ≤ e.1.expires) (sweep 1000 test_auth).sessions
    × (live_session 1500 (some (lit "s")) (sweep 1000 test_auth)
        ≡ live_session 1500 (some (lit "s")) test_auth)
sweep_lem_example = sweep_lem 1000 1500 (lit "s") test_auth one_key (omega arith)

live_session-logout_example :
    live_session 1000
      (some (lit "s"))
      (logout test_platform test_oidc test_world post_request test_auth).1
    ≡ (if is_text (read_cookie post_request.cookie session_cookie) (lit "s")
        then none
        else live_session 1000 (some (lit "s")) test_auth)
live_session-logout_example =
    live_session-logout test_platform test_oidc test_world post_request test_auth 1000 (lit "s")

abbrev file_response : Response
file_response = send 200 (raw_bytes (1 ∷ 2 ∷ [])) (
    (content_type, lit "application/octet-stream" ∷ []) ∷ (cache_control, lit "no-cache" ∷ []) ∷ [])

index_joins : JoinsIndex test_files
unfolding lit
index_joins = refl

file_served : serve_static test_files (lit "/a") ≡ responds file_response
unfolding lit serve_static serve_decoded serve_read send content_type_of get
file_served = refl

file_body : file_response.body ≡ raw_bytes (1 ∷ 2 ∷ [])
unfolding send
file_body = refl

serve_static-IsBuilt_example : IsBuilt test_files (1 ∷ 2 ∷ [])
serve_static-IsBuilt_example =
    serve_static-IsBuilt test_files (lit "/a") file_response (1 ∷ 2 ∷ []) index_joins file_served
      file_body

abbrev test_env : Env
test_env = record {
  port = none;
  controlplane_url = none;
  public_api_url = none;
  controlplane_token = some (lit "key");
  auth_disabled = none;
  oidc_issuer = some (lit "https://id");
  oidc_internal_issuer = none;
  oidc_client_id = none;
  oidc_client_secret = none;
  public_url = none;
  session_ttl_hours = none;
}

load-Checked_example : Checked test_env (load (λ s. 8) test_env)
load-Checked_example = load-Checked (λ s. 8) test_env

read_body_lem_example : read_body post_request.chunks ≡ (
    if leb (length (concat_chunks post_request.chunks)) max_body_bytes
    then some (concat_chunks post_request.chunks)
    else none)
read_body_lem_example = read_body_lem post_request.chunks

abbrev test_jar : Store Text
test_jar = (lit "m2m_login", lit "a") ∷ (lit "m2m_session", lit "s") ∷ []

test_jar-IsJar : IsJar test_jar
unfolding lit is_cookie_char is_space
test_jar-IsJar = ground arith

read_cookie-cookie_header_example :
    read_cookie (some (cookie_header test_jar)) (lit "m2m_session")
    ≡ get (lit "m2m_session") test_jar
read_cookie-cookie_header_example =
    read_cookie-cookie_header (lit "m2m_session") test_jar test_jar-IsJar

IsClean-texts : IsClean (lit "m2m_session") × IsClean (lit "s")
unfolding lit is_cookie_char is_space
IsClean-texts = (refl, refl)

-- The same request, as a page of another site makes it.
abbrev foreign_request : Request
foreign_request = record post_request { origin = some (lit "https://evil") }

foreign_is_cross_origin : cross_origin test_platform test_config.oidc foreign_request ≡ true
unfolding lit cross_origin drop_trailing_slashes
foreign_is_cross_origin = refl

handle-cross_origin_example :
    ((o : Outcome) × ((handle test_platform test_files test_config test_world foreign_request
          test_auth).0
        ≡ done o))
    × (live_session 1500
          (some (lit "s"))
          (handle test_platform test_files test_config test_world foreign_request test_auth).1
        ≡ live_session 1500 (some (lit "s")) test_auth)
handle-cross_origin_example =
    handle-cross_origin test_platform test_files test_config test_world foreign_request test_auth
      1500 (some (lit "s")) refl foreign_is_cross_origin (omega arith)
