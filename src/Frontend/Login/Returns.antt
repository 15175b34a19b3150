-- ===== src/Frontend/Login/Returns.antt =====
-- Where a login started at web/src/frontend/routes/login.tsx ends.
use mesh2mesh.Backend.Oidc.{safe_return_to}
use mesh2mesh.Base.{Text, lit, ◌≡◌, ap, ◌∙◌, Bool, some, [], ◌∷◌, arith}
use mesh2mesh.Frontend.Api.{ApiUser}
use mesh2mesh.Frontend.Login.{return_to, navigates, login_effect}
use mesh2mesh.Frontend.Router.{login_of}

return_to_kept : (href : Text) → safe_return_to (some href) ≡ href → return_to (some href) ≡ href
unfolding return_to lit safe_return_to
return_to_kept [] h = cc
return_to_kept (c ∷ []) h = ground arith
return_to_kept (c ∷ d ∷ s) h = ground arith

-- Who was sent to the login page from an address that the server takes as a `returnTo` is brought
-- back to just that address: by the page itself if a session is there, and by the server, which
-- takes the same `returnTo`.
login_effect-safe_return_to :
    (href : Text) (signup : Bool) (user : ApiUser)
    → safe_return_to (some href) ≡ href
    → (login_effect (some (some user)) (login_of href signup) ≡ navigates href)
      × (safe_return_to (some (return_to (login_of href signup).redirect)) ≡ href)
unfolding login_effect
login_effect-safe_return_to href signup user h = (
  ap navigates (return_to_kept href h),
  ap (λ r. safe_return_to (some r)) (return_to_kept href h) ∙ h,
)
