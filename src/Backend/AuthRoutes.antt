-- ===== src/Backend/AuthRoutes.antt =====
-- web/src/backend/auth-routes.mjs.
use mesh2mesh.Backend.Callback.{callback}
use mesh2mesh.Backend.Config.{OidcConfig}
use mesh2mesh.Backend.Http.{
  User, Json, null_json, error_json, user_json, Response, Request, send_json, redirect,
}
use mesh2mesh.Backend.Login.{login}
use mesh2mesh.Backend.Logout.{logout}
use mesh2mesh.Backend.Oidc.{Auth, Outcome, responds, throws}
use mesh2mesh.Backend.Provider.{Platform, World}
use mesh2mesh.Backend.Session.{current_user, cross_origin}
use mesh2mesh.Base.{
  Text, lit, text_eq, if◌then◌else◌, encode_uri_component, ℕ, Option, none, some, [], ◌∷◌, ◌++◌,
}

abbrev pub route_of : Request → Text
route_of req = req.method ++ b' ' ∷ req.path

abbrev me_json : Option User → Json
me_json none = null_json
me_json (some u) = user_json u

-- The `catch` around `auth.login`.
abbrev caught : Outcome × Auth → Outcome × Auth
caught (responds r, a) = (responds r, a)
caught (throws, a) = (
  responds (
      redirect 302 (
        lit "/login?error=" ++ encode_uri_component (lit "The identity provider is unreachable."))),
  a,
)

abbrev refuse : ℕ → Text → Response
refuse status message = send_json status (error_json message)

module _ (pl : Platform) where
  -- The `switch`, once `auth` is not null.
  pub oidc_route : OidcConfig → World → Request → Auth → Outcome × Auth
  oidc_route cfg w req a =
      if text_eq (route_of req) (lit "GET /auth/login")
      then caught (login pl cfg w req a)
      else if text_eq (route_of req) (lit "GET /auth/callback")
      then callback pl cfg w req a
      else if text_eq (route_of req) (lit "POST /auth/logout")
      then if cross_origin pl (some cfg) req
        then (responds (refuse 403 (lit "cross-origin request refused")), a)
        else logout pl cfg w req a
      else (responds (refuse 404 (lit "no such auth route")), a)

  abbrev without_auth : Text → Response
  without_auth route =
      redirect 303 (if text_eq route (lit "GET /auth/login") then lit "/admin" else b'/' ∷ [])

  abbrev me_route : Option User × Auth → Outcome × Auth
  me_route (u, a) = (responds (send_json 200 (me_json u)), a)

  abbrev auth_or_not : Option OidcConfig → World → Request → Auth → Outcome × Auth
  auth_or_not none w req a = (responds (without_auth (route_of req)), a)
  auth_or_not (some cfg) w req a = oidc_route cfg w req a

  -- `authRoute(req, res, url)`
  unfoldable pub auth_route : Option OidcConfig → World → Request → Auth → Outcome × Auth
  unfolding oidc_route
  auth_route oidc w req a =
      if text_eq (route_of req) (lit "GET /auth/me")
      then me_route (current_user oidc w.now req a)
      else auth_or_not oidc w req a
