-- ===== src/Backend/Callback/Accepted.antt =====
-- Which callbacks web/src/backend/oidc.mjs accepts.
use mesh2mesh.Backend.Config.{OidcConfig}
use mesh2mesh.Backend.Cookies.{read_cookie}
use mesh2mesh.Backend.Http.{Request}
use mesh2mesh.Backend.Login.{accepted, state_of, check_callback, callback_begin}
use mesh2mesh.Backend.Oidc.{Pending, Auth, login_cookie, is_text_iff}
use mesh2mesh.Base.{
  get, get-delete, Text, lit, text_eq_refl, ◌or◌, ℕ, ◌≤◌, ◌≡◌, refl, ◌↔◌, Option, none, some, [],
  arith,
}

-- Why the state and the browser are trusted when a callback is accepted.
pub record IsExpected (now : ℕ) (req : Request) (a : Auth) (p : Pending) (code : Text)
    : Type 0 where
  pub no_error : get (lit "error") req.query ≡ none
  pub known : get (state_of req) a.logins ≡ some p
  pub in_time : now ≤ p.expires
  pub same_browser : read_cookie req.cookie login_cookie ≡ some (state_of req)
  pub with_code : code ≡ (get (lit "code") req.query or [])

check_callback-accepted :
    (cfg : OidcConfig) (now : ℕ) (req : Request) (a : Auth) (o : Option Pending) (p : Pending)
    (code : Text)
    → check_callback cfg now req (state_of req) o ≡ accepted p code
    → o ≡ get (state_of req) a.logins
    → IsExpected now req a p code
unfolding check_callback
check_callback-accepted cfg now req a o p code h e =
    ground (arith, is_text_iff (read_cookie req.cookie login_cookie) (state_of req))

IsExpected-accepted :
    (cfg : OidcConfig) (now : ℕ) (req : Request) (a : Auth) (p : Pending) (code : Text)
    → IsExpected now req a p code
    → check_callback cfg now req (state_of req) (get (state_of req) a.logins) ≡ accepted p code
unfolding check_callback
IsExpected-accepted cfg now req a p code h =
    ground (arith, is_text_iff (read_cookie req.cookie login_cookie) (state_of req))

-- A callback goes on to the exchange of its code exactly if the provider reports no error, its
-- state is that of a login in progress which has not run out, and the browser's cookie holds the
-- same state. Accepted or not, its state is used up: it is no longer that of a login in progress.
pub callback_begin_lem :
    (cfg : OidcConfig) (now : ℕ) (req : Request) (a : Auth) (p : Pending) (code : Text)
    → (((callback_begin cfg now req a).0 ≡ accepted p code) ↔ IsExpected now req a p code)
      × (get (state_of req) (callback_begin cfg now req a).1.logins ≡ none)
unfolding callback_begin
callback_begin_lem cfg now req a p code = (
  (
    (λ h. check_callback-accepted cfg now req a _ p code h refl),
    IsExpected-accepted cfg now req a p code,
  ),
  rw (get-delete (state_of req) (state_of req) a.logins, text_eq_refl (state_of req)),
)
