-- ===== src/Backend/Logout.antt =====
-- `logout` of web/src/backend/oidc.mjs.
pub mod Ends
use mesh2mesh.Backend.Config.{OidcConfig}
use mesh2mesh.Backend.Cookies.{read_cookie, cookie}
use mesh2mesh.Backend.Http.{location, set_cookie, empty, Response, Request}
use mesh2mesh.Backend.Oidc.{
  Session, Auth, Outcome, responds, session_cookie, public_url_of, secure, truthy_get, delete_opt,
}
use mesh2mesh.Backend.Provider.{Platform, Metadata, World, provider}
use mesh2mesh.Base.{
  null, Text, lit, if◌then◌else◌, ◌or_else◌, search_params, Option, none, some, [], ◌∷◌, ◌++◌,
}

module _ (pl : Platform) (cfg : OidcConfig) where
  logged_out : Text → Response
  logged_out target = record {
    status = 303;
    headers =
        (location, target ∷ [])
        ∷ (set_cookie, cookie session_cookie [] (b'/' ∷ []) 0 (secure cfg) ∷ [])
        ∷ [];
    body = empty;
  }

  end_session : Session → Text → Text
  end_session s endpoint = pl.with_search endpoint (
      search_params (
        (lit "id_token_hint", s.id_token)
        ∷ (lit "post_logout_redirect_uri", public_url_of cfg ++ b'/' ∷ [])
        ∷ (lit "client_id", cfg.client_id)
        ∷ []))

  logout_target : Session → Option Metadata → Text
  unfolding end_session
  logout_target s none = b'/' ∷ []
  logout_target s (some m) = elim m.end_session_endpoint [
    | none ↦ b'/' ∷ []
    | some e ↦ if null e then b'/' ∷ [] else end_session s e
  ]

  -- `metadata` after a call of `provider()`
  abbrev cached : World → Option Metadata → Option Metadata
  cached w old = provider cfg w old or_else old

  unfoldable pub logout_known : World → Auth → Option Session → Outcome × Auth
  unfolding logged_out logout_target
  logout_known w a none = (responds (logged_out (b'/' ∷ [])), a)
  logout_known w a (some s) = (
    responds (logged_out (logout_target s (provider cfg w a.metadata))),
    record a { metadata = cached w a.metadata },
  )

  -- `logout(req, res)`
  unfoldable pub logout : World → Request → Auth → Outcome × Auth
  unfolding logout_known
  logout w req a =
      let id = read_cookie req.cookie session_cookie in
      logout_known w (record a { sessions = delete_opt id a.sessions }) (truthy_get id a.sessions)
