-- ===== src/Backend/Logout/Ends.antt =====
-- What a logout of web/src/backend/oidc.mjs ends, and what it leaves.
use mesh2mesh.Backend.Config.{OidcConfig}
use mesh2mesh.Backend.Cookies.{read_cookie}
use mesh2mesh.Backend.Http.{Request}
use mesh2mesh.Backend.Logout.{logout_known, logout}
use mesh2mesh.Backend.Oidc.{Session, Auth, session_cookie, truthy_get, delete_opt, is_text}
use mesh2mesh.Backend.Oidc.Sessions.{live_session}
use mesh2mesh.Backend.Provider.{Platform, World}
use mesh2mesh.Base.{
  get-delete, unless, Text, text_eq_iff, ltb, if◌then◌else◌, ℕ, ◌≡◌, refl, Option, none, some,
  arith,
}

logout_known-sessions :
    (pl : Platform) (cfg : OidcConfig) (w : World) (a : Auth) (o : Option Session)
    → (logout_known pl cfg w a o).1.sessions ≡ a.sessions
unfolding logout_known
logout_known-sessions pl cfg w a none = refl
logout_known-sessions pl cfg w a (some s) = refl

ends :
    (now : ℕ) (id : Option Text) (o : Text) (a : Auth)
    → unless (λ (s : Session). ltb s.expires now) (truthy_get (some o) (delete_opt id a.sessions))
      ≡ (if is_text id o
          then none
          else unless (λ (s : Session). ltb s.expires now) (truthy_get (some o) a.sessions))
ends now none o a = refl
ends now (some id) o a = ground (arith, get-delete id o a.sessions, text_eq_iff id o)

-- After a logout the session id of its cookie stands for no session, at any time; every other id
-- stands for what it stood for.
pub live_session-logout :
    (pl : Platform) (cfg : OidcConfig) (w : World) (req : Request) (a : Auth) (now : ℕ) (id : Text)
    → live_session now (some id) (logout pl cfg w req a).1 ≡ (
        if is_text (read_cookie req.cookie session_cookie) id
        then none
        else live_session now (some id) a)
unfolding logout live_session
live_session-logout pl cfg w req a now id =
    let old = read_cookie req.cookie session_cookie in
    let e =
      logout_known-sessions pl cfg w (record a { sessions = delete_opt old a.sessions })
        (truthy_get old a.sessions) in
    rw e (ends now old id a)
