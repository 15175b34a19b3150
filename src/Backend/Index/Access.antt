-- ===== src/Backend/Index/Access.antt =====
-- Who reaches the control plane through `handle` of web/src/backend/index.mjs.
use mesh2mesh.Backend.Config.{Config}
use mesh2mesh.Backend.Http.{User, Request, max_body_bytes, concat_chunks}
use mesh2mesh.Backend.Http.Body.{read_body_lem}
use mesh2mesh.Backend.Index.{api_branch, handle}
use mesh2mesh.Backend.Oidc.{Auth}
use mesh2mesh.Backend.Provider.{Platform, World}
use mesh2mesh.Backend.Proxy.{is_api_route, Upstream, forward, upstream, proxy}
use mesh2mesh.Backend.Proxy.Routes.{ApiRoute, is_api_route_iff}
use mesh2mesh.Backend.Session.{current_user, cross_origin}
use mesh2mesh.Backend.Static.{Files}
use mesh2mesh.Base.{
  length, drop, Text, lit, text_eq, text_eq_iff, starts_with, if◌then◌else◌, Bool-cases, ℕ, ◌≤◌,
  ◌≡◌, refl, sym, ap, ◌∙◌, subst, ◌⊎◌, inl, inr, true, false, not, ◌&&◌, Option, none, some, List,
  ◌++◌, arith,
}

-- The body that a request brings along, if it is forwarded with one.
abbrev pub body_of : Request → Option (List ℕ)
body_of req = if text_eq req.method (lit "POST") then some (concat_chunks req.chunks) else none

abbrev pub body_size : Request → ℕ
body_size req = if text_eq req.method (lit "POST") then length (concat_chunks req.chunks) else 0

-- What holds of a request that the proxy forwards.
pub record IsProxied (conf : Config) (req : Request) (path : Text) (user : User) (u : Upstream)
    : Type 0 where
  pub in_table : is_api_route req.method path ≡ true
  pub small : body_size req ≤ max_body_bytes
  pub asks : u ≡ upstream conf req path user (body_of req)

proxy-IsProxied :
    (conf : Config) (req : Request) (path : Text) (user : User) (u : Upstream)
    → proxy conf req path user ≡ forward u
    → IsProxied conf req path user u
unfolding proxy
proxy-IsProxied conf req path user u h = ground (arith, read_body_lem req.chunks)

IsProxied-proxy :
    (conf : Config) (req : Request) (path : Text) (user : User)
    → is_api_route req.method path ≡ true
    → body_size req ≤ max_body_bytes
    → proxy conf req path user ≡ forward (upstream conf req path user (body_of req))
unfolding proxy
IsProxied-proxy conf req path user h small = ground (arith, read_body_lem req.chunks)

-- What holds of a request that the server forwards to the control plane as `u`.
pub record IsAdmitted (pl : Platform) (conf : Config) (w : World) (req : Request) (a : Auth)
    (u : Upstream) : Type 0 where
  pub user : User
  pub under_api : starts_with (lit "/api/") req.path ≡ true
  pub logged_in : (current_user conf.oidc w.now req a).0 ≡ some user
  pub same_origin : (req.method ≡ lit "GET") ⊎ (cross_origin pl conf.oidc req ≡ false)
  pub route : ApiRoute req.method (drop 4 req.path)
  pub small : body_size req ≤ max_body_bytes
  pub asks : u ≡ upstream conf req (drop 4 req.path) user (body_of req)

module _ (pl : Platform) (fs : Files) (conf : Config) where
  -- The checks of the branch for /api.
  abbrev Passes : Request → User → Type 0
  Passes req user =
      ((req.method ≡ lit "GET") ⊎ (cross_origin pl conf.oidc req ≡ false))
      × (is_api_route req.method (drop 4 req.path) ≡ true)
      × (body_size req ≤ max_body_bytes)

  api_branch-forward :
      (req : Request) (o : Option User) (u : Upstream)
      → api_branch pl fs conf req o ≡ forward u
      → (user : User) × (o ≡ some user)
        × Passes req user
        × (u ≡ upstream conf req (drop 4 req.path) user (body_of req))
  unfolding api_branch
  api_branch-forward req none u h = cc
  api_branch-forward req (some user) u h =
      elim (Bool-cases (not (text_eq req.method (lit "GET")) && cross_origin pl conf.oidc req)) [
        | inl bad ↦ absurd (refused bad h)
        | inr fine ↦
            let p = proxy-IsProxied conf req (drop 4 req.path) user u (rw fine at h) in
            (
              user,
              refl,
              (ground (arith, text_eq_iff req.method (lit "GET")), p.in_table, p.small),
              p.asks,
            )
      ]
    where
      refused :
          (not (text_eq req.method (lit "GET")) && cross_origin pl conf.oidc req) ≡ true
          → api_branch pl fs conf req (some user) ≡ forward u
          → ⊥
      refused bad h = ground arith

  handle-api :
      (w : World) (req : Request) (a : Auth) (u : Upstream)
      → (handle pl fs conf w req a).0 ≡ forward u
      → (starts_with (lit "/api/") req.path ≡ true)
        × (api_branch pl fs conf req (current_user conf.oidc w.now req a).0 ≡ forward u)
  unfolding handle
  handle-api w req a u h = ground arith

  handle-api_forward :
      (w : World) (req : Request) (a : Auth)
      → starts_with (lit "/auth/") req.path ≡ false
      → starts_with (lit "/api/") req.path ≡ true
      → (handle pl fs conf w req a).0
        ≡ api_branch pl fs conf req (current_user conf.oidc w.now req a).0
  unfolding handle
  handle-api_forward w req a h k = ground arith

  api_branch-Passes :
      (req : Request) (user : User)
      → Passes req user
      → api_branch pl fs conf req (some user)
        ≡ forward (upstream conf req (drop 4 req.path) user (body_of req))
  unfolding api_branch
  api_branch-Passes req user (same, route, small) = ground (
    arith,
    text_eq_iff req.method (lit "GET"),
    IsProxied-proxy conf req (drop 4 req.path) user route small,
  )

  -- The server asks the control plane only for a request under /api of a user who is logged in,
  -- whose method is GET or whose origin is the site's own, that is in the table of routes with
  -- /api cut off, and whose body is at most 65536 bytes. What it asks is that path of the control
  -- plane, with the shared token and this user's identity.
  pub handle-IsAdmitted :
      (w : World) (req : Request) (a : Auth) (u : Upstream)
      → (handle pl fs conf w req a).0 ≡ forward u
      → IsAdmitted pl conf w req a u
  handle-IsAdmitted w req a u h =
      let (under, branch) = handle-api w req a u h in
      let (user, known, (same, route, small), asks) = api_branch-forward req _ u branch in
      record {
        user = user;
        under_api = under;
        logged_in = known;
        same_origin = same;
        route = (is_api_route_iff req.method (drop 4 req.path)).0 route;
        small = small;
        asks = asks;
      }

  auth_ne_api : (p : Text) → starts_with (lit "/auth/") (lit "/api" ++ p) ≡ false
  unfolding lit
  auth_ne_api p = refl

  pub api_drop : (p : Text) → drop 4 (lit "/api" ++ p) ≡ p
  unfolding lit
  api_drop p = refl

  api_slash :
      (p : Text)
      → starts_with (lit "/") p ≡ true
      → starts_with (lit "/api/") (lit "/api" ++ p) ≡ true
  unfolding lit
  api_slash p h = h

  -- Such a request is forwarded: under /api, from a user who is logged in, with the method GET or
  -- the site's own origin, in the table of routes, with a body of at most 65536 bytes.
  pub handle-forwards :
      (w : World) (req : Request) (a : Auth) (user : User) (path : Text)
      → req.path ≡ lit "/api" ++ path
      → starts_with (lit "/") path ≡ true
      → (current_user conf.oidc w.now req a).0 ≡ some user
      → (req.method ≡ lit "GET") ⊎ (cross_origin pl conf.oidc req ≡ false)
      → ApiRoute req.method path
      → body_size req ≤ max_body_bytes
      → (handle pl fs conf w req a).0 ≡ forward (upstream conf req path user (body_of req))
  handle-forwards w req a user path e slash known same route small =
      let d : drop 4 req.path ≡ path = ap (drop 4) e ∙ api_drop path in
      handle-api_forward w req a (rw e (auth_ne_api path)) (rw e (api_slash path slash))
      ∙ ap (api_branch pl fs conf req) known
      ∙ api_branch-Passes req user (
        same,
        subst (λ p. is_api_route req.method p ≡ true) (sym d)
            ((is_api_route_iff req.method path).1 route),
        small,
      )
      ∙ ap (λ p. forward (upstream conf req p user (body_of req))) d
