-- ===== src/Frontend/Login.antt =====
-- web/src/frontend/routes/login.tsx: the page that sends a signed-out user to the identity provider.
pub mod Returns
use mesh2mesh.Base.{
  null, Text, lit, starts_with, if◌then◌else◌, encode_uri_component, Bool, false, not, ◌&&◌, Option,
  none, some, [], ◌++◌,
}
use mesh2mesh.Frontend.Api.{ApiUser, RuntimeConfig}
use mesh2mesh.Frontend.Router.{LoginSearch}

-- `redirect?.startsWith("/") && !redirect.startsWith("//") ? redirect : "/admin/machines"`
pub return_to : Option Text → Text
return_to none = lit "/admin/machines"
return_to (some r) =
    if starts_with (lit "/") r && not (starts_with (lit "//") r) then r else lit "/admin/machines"

pub sign_in : LoginSearch → Text
unfolding return_to
sign_in s =
    lit "/auth/login?returnTo="
    ++ (encode_uri_component (return_to s.redirect) ++ (if s.signup then lit "&signup=1" else []))

pub data LoginMove : Type 0 where
  stays : LoginMove
  navigates : Text → LoginMove
  leaves_for : Text → LoginMove

abbrev is_shown : Option Text → Bool
is_shown none = false
is_shown (some e) = not (null e)

-- The effect: `me.data` is absent until the query has answered, and null for nobody.
pub login_effect : Option (Option ApiUser) → LoginSearch → LoginMove
unfolding return_to sign_in
login_effect none s = stays
login_effect (some (some user)) s = navigates (return_to s.redirect)
login_effect (some none) s = if is_shown s.error then stays else leaves_for (sign_in s)

pub record LoginView : Type 0 where
  pub title : Text
  pub alert : Option Text
  pub link : Text
  pub button : Text

-- `config.data?.authEnabled === false`
abbrev is_disabled : Option RuntimeConfig → Bool
is_disabled none = false
is_disabled (some c) = not c.auth_enabled

unfoldable pub login_view : Option RuntimeConfig → LoginSearch → LoginView
unfolding sign_in
login_view config s = record {
  title = if is_shown s.error then lit "Log in failed" else lit "Log in";
  alert = if is_shown s.error then s.error else none;
  link = sign_in s;
  button =
      if is_disabled config
      then lit "Continue (login disabled)"
      else if is_shown s.error
      then lit "Try again"
      else lit "Continue to sign-in";
}
