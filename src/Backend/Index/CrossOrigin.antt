-- ===== src/Backend/Index/CrossOrigin.antt =====
-- What another site can make a browser do at `handle` of web/src/backend/index.mjs.
use mesh2mesh.Backend.AuthRoutes.{route_of, auth_route}
use mesh2mesh.Backend.Config.{OidcConfig, Config}
use mesh2mesh.Backend.Http.{User, error_json, Request, send_json}
use mesh2mesh.Backend.Index.{api_branch, handle}
use mesh2mesh.Backend.Oidc.{Auth, Outcome, responds}
use mesh2mesh.Backend.Oidc.Sessions.{live_session, session_lem}
use mesh2mesh.Backend.Provider.{Platform, World}
use mesh2mesh.Backend.Proxy.{done}
use mesh2mesh.Backend.Session.{current_user, cross_origin}
use mesh2mesh.Backend.Static.{Files}
use mesh2mesh.Base.{
  Text, lit, text_eq, starts_with, Bool-cases, ℕ, ◌≤◌, ◌≡◌, refl, ap, ◌∙◌, inl, inr, true, false,
  not, ◌&&◌, Option, none, some, ◌∷◌, ◌++◌,
}

post_routes :
    (p : Text)
    → (text_eq (lit "POST" ++ 32 ∷ p) (lit "GET /auth/me") ≡ false)
      × (text_eq (lit "POST" ++ 32 ∷ p) (lit "GET /auth/login") ≡ false)
      × (text_eq (lit "POST" ++ 32 ∷ p) (lit "GET /auth/callback") ≡ false)
unfolding lit
post_routes p = (refl, refl, refl)

post_is_no_get : text_eq (lit "POST") (lit "GET") ≡ false
unfolding lit
post_is_no_get = refl

module _ (pl : Platform) (fs : Files) (conf : Config) where
  auth_route-refuses :
      (oidc : Option OidcConfig) (w : World) (req : Request) (a : Auth)
      → req.method ≡ lit "POST"
      → cross_origin pl oidc req ≡ true
      → (auth_route pl oidc w req a).1 ≡ a
  unfolding auth_route cross_origin
  auth_route-refuses none w req a e x = rw (e, (post_routes req.path).0) refl
  auth_route-refuses (some cfg) w req a e x =
      elim (Bool-cases (text_eq (route_of req) (lit "POST /auth/logout"))) [
        | inl is_logout ↦
            rw
              (
                is_logout,
                e,
                (post_routes req.path).0,
                (post_routes req.path).1,
                (post_routes req.path).2,
                x,
              )
              refl
        | inr other ↦
            rw
              (
                other,
                e,
                (post_routes req.path).0,
                (post_routes req.path).1,
                (post_routes req.path).2,
              )
              refl
      ]

  api_branch-refuses :
      (req : Request) (user : Option User)
      → req.method ≡ lit "POST"
      → cross_origin pl conf.oidc req ≡ true
      → (o : Outcome) × (api_branch pl fs conf req user ≡ done o)
  unfolding api_branch
  api_branch-refuses req none e x = (_, refl)
  api_branch-refuses req (some user) e x = (
    responds (send_json 403 (error_json (lit "cross-origin request refused"))),
    rw (ap (λ m. text_eq m (lit "GET")) e ∙ post_is_no_get, x) refl,
  )

  current_user-keeps :
      (oidc : Option OidcConfig) (now later : ℕ) (req : Request) (other : Option Text) (a : Auth)
      → now ≤ later
      → live_session later other (current_user oidc now req a).1 ≡ live_session later other a
  unfolding current_user
  current_user-keeps none now later req other a h = refl
  current_user-keeps (some cfg) now later req other a h = (session_lem now later req other a h).1

  -- A POST from another site is not forwarded to the control plane, and no request, then or later,
  -- stands for another session because of it.
  pub handle-cross_origin :
      (w : World) (req : Request) (a : Auth) (later : ℕ) (other : Option Text)
      → req.method ≡ lit "POST"
      → cross_origin pl conf.oidc req ≡ true
      → w.now ≤ later
      → ((o : Outcome) × ((handle pl fs conf w req a).0 ≡ done o))
        × (live_session later other (handle pl fs conf w req a).1 ≡ live_session later other a)
  unfolding handle
  handle-cross_origin w req a later other e x h =
      elim (Bool-cases (starts_with (lit "/auth/") req.path)) [
        | inl auth ↦
            rw auth
              ((_, refl), ap (live_session later other) (auth_route-refuses conf.oidc w req a e x))
        | inr no_auth ↦ elim (Bool-cases (starts_with (lit "/api/") req.path)) [
          | inl api ↦
              rw (no_auth, api)
                (
                  api_branch-refuses req _ e x,
                  current_user-keeps conf.oidc w.now later req other a h,
                )
          | inr no_api ↦ elim (Bool-cases (text_eq req.path (lit "/config.json"))) [
            | inl config ↦ rw (no_auth, no_api, config) ((_, refl), refl)
            | inr no_config ↦ elim (Bool-cases (text_eq req.path (lit "/healthz"))) [
              | inl health_path ↦ rw (no_auth, no_api, no_config, health_path) ((_, refl), refl)
              | inr no_health ↦
                  elim (Bool-cases (
                    not (text_eq req.method (lit "GET"))
                    && not (text_eq req.method (lit "HEAD")))) [
                      | inl bad ↦ rw (no_auth, no_api, no_config, no_health, bad) ((_, refl), refl)
                      | inr good ↦
                          rw (no_auth, no_api, no_config, no_health, good) ((_, refl), refl)
                    ]
            ]
          ]
        ]
      ]
