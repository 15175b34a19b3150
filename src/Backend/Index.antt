-- ===== src/Backend/Index.antt =====
-- web/src/backend/index.mjs: `handle`, and the server's callback around it.
pub mod Access
pub mod CrossOrigin
use mesh2mesh.Backend.AuthRoutes.{auth_route}
use mesh2mesh.Backend.Config.{Config}
use mesh2mesh.Backend.Http.{
  content_type, allow, User, error_json, config_json, status_json, plain, Response, Request, send,
  send_json,
}
use mesh2mesh.Backend.Oidc.{Auth, Outcome, responds, throws}
use mesh2mesh.Backend.Provider.{Platform, World}
use mesh2mesh.Backend.Proxy.{Upstream, Plan, done, forward, proxy, Answer, relay_answer}
use mesh2mesh.Backend.Session.{current_user, cross_origin}
use mesh2mesh.Backend.Static.{Files, serve_static}
use mesh2mesh.Base.{
  drop, lit, text_eq, starts_with, if◌then◌else◌, is_some, not, ◌&&◌, Option, none, some, [], ◌∷◌,
}

abbrev finish : Outcome × Auth → Plan × Auth
finish (o, a) = (done o, a)

module _ (pl : Platform) (fs : Files) (conf : Config) where
  -- The branch for /api, once the user is looked up.
  pub api_branch : Request → Option User → Plan
  api_branch req none = done (responds (send_json 401 (error_json (lit "not logged in"))))
  api_branch req (some user) =
      if not (text_eq req.method (lit "GET")) && cross_origin pl conf.oidc req
      then done (responds (send_json 403 (error_json (lit "cross-origin request refused"))))
      else proxy conf req (drop 4 req.path) user

  abbrev api_result : Request → Option User × Auth → Plan × Auth
  api_result req (user, a) = (api_branch req user, a)

  -- `handle(req, res, url)`
  pub handle : World → Request → Auth → Plan × Auth
  handle w req a =
      if starts_with (lit "/auth/") req.path
      then finish (auth_route pl conf.oidc w req a)
      else if starts_with (lit "/api/") req.path
      then api_result req (current_user conf.oidc w.now req a)
      else if text_eq req.path (lit "/config.json")
      then (
        done (responds (send_json 200 (config_json conf.public_api_url (is_some conf.oidc)))),
        a,
      )
      else if text_eq req.path (lit "/healthz")
      then (done (responds (send_json 200 (status_json (lit "ok")))), a)
      else if not (text_eq req.method (lit "GET")) && not (text_eq req.method (lit "HEAD"))
      then (
        done (
            responds (
              send 405 (plain (lit "method not allowed"))
                ((content_type, lit "text/plain" ∷ []) ∷ (allow, lit "GET, HEAD" ∷ []) ∷ []))),
        a,
      )
      else (done (serve_static fs req.path), a)

  abbrev pub internal_error : Response
  internal_error = send_json 500 (error_json (lit "internal error"))

  -- The `catch` of the server's callback.
  abbrev pub settle : Outcome → Response
  settle (responds r) = r
  settle throws = internal_error

  abbrev carry_out : (Upstream → Answer) → Plan → Outcome
  carry_out control (done o) = o
  carry_out control (forward u) = relay_answer conf (control u)

  -- The callback of `createServer`, with a control plane that answers by `control`.
  unfoldable pub serve : (Upstream → Answer) → World → Request → Auth → Response × Auth
  unfolding handle
  serve control w req a = (settle (carry_out control (handle w req a).0), (handle w req a).1)
