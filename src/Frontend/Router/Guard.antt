-- ===== src/Frontend/Router/Guard.antt =====
-- The guards of web/src/frontend/router.tsx and the errors of web/src/frontend/main.tsx.
use mesh2mesh.Base.{
  Text, ==_iff, ℕ, ◌+◌, ◌-◌, ◌≤◌, ◌≡◌, refl, Bool, true, false, Option, none, List, [], ◌∷◌, arith,
}
use mesh2mesh.Frontend.Api.{ApiUser, ApiError, Thrown, api_error, Result, ok}
use mesh2mesh.Frontend.Router.{
  Page, landing_page, login_page, no_page, invite_page, admin_page, machines_page, members_page,
  tenants_page, redirected, login_for, before_load, AppState, load_page, on_error, retry, attempts,
}

-- The pages that need a session.
abbrev pub NeedsUser : Page → Type 0
NeedsUser landing_page = ⊥
NeedsUser login_page = ⊥
NeedsUser no_page = ⊥
NeedsUser _ = Unit

-- Who is signed out sees no page that needs a user: each redirects to the login page, which is told
-- the address.
before_load_signed_out :
    (href : Text) (p : Page)
    → NeedsUser p
    → (b : Bool) × (before_load (ok none) href p ≡ redirected (login_for href b))
unfolding before_load
before_load_signed_out href landing_page n = elim n [ ]
before_load_signed_out href login_page n = elim n [ ]
before_load_signed_out href no_page n = elim n [ ]
before_load_signed_out href (invite_page code) n = (true, refl)
before_load_signed_out href admin_page n = (false, refl)
before_load_signed_out href machines_page n = (false, refl)
before_load_signed_out href members_page n = (false, refl)
before_load_signed_out href tenants_page n = (false, refl)

-- A 401 that any query or mutation meets sends the user to the login page with the address that was
-- open, and from then on every page that needs a user redirects to the login page, whatever the
-- application had loaded before and whatever the server would answer now.
on_error-load_page :
    (e : ApiError) (app : AppState) (answer : Result (Option ApiUser)) (p : Page)
    → e.status ≡ 401
    → NeedsUser p
    → ((on_error (api_error e) app).navigations ≡ login_for app.href false ∷ app.navigations)
      × ((b : Bool) × (load_page answer (on_error (api_error e) app) p
            ≡ redirected (login_for app.href b)))
unfolding on_error load_page
on_error-load_page e app answer p h n =
    rw ((==_iff e.status 401).1 h) (refl, before_load_signed_out app.href p n)

attempts_from : (es : List Thrown) (n : ℕ) → (attempts es n ≤ 1 + (2 - n)) × (1 ≤ attempts es n)
unfolding attempts retry
attempts_from [] n = ground arith
attempts_from (e ∷ es) n = ground (arith, attempts_from es (n + 1))

-- A query sends at most three requests, whatever errors they meet.
attempts-le : (es : List Thrown) → attempts es 0 ≤ 3
attempts-le es = (attempts_from es 0).0
