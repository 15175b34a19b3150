-- ===== src/Backend/Callback.antt =====
-- `callback` of web/src/backend/oidc.mjs, from its first `await` on: the exchange of the code, the
-- check of the id token, and the new session.
pub mod Finish
pub mod Accepted
pub mod Interleaving
pub mod Vouched
use mesh2mesh.Backend.Config.{OidcConfig}
use mesh2mesh.Backend.Cookies.{cookie}
use mesh2mesh.Backend.Http.{cache_control, location, set_cookie, User, empty, Response, Request}
use mesh2mesh.Backend.Login.{Begun, rejected, accepted, clear, login_failed, callback_begin}
use mesh2mesh.Backend.Oidc.{
  Session, Pending, Auth, Outcome, responds, throws, session_cookie, redirect_uri, secure, is_text,
}
use mesh2mesh.Backend.Provider.{
  Claims, Platform, Metadata, Tokens, TokenRequest, Fetch, failed, answered, is_ok, World,
  issuer_of, provider,
}
use mesh2mesh.Base.{
  null, put, Text, lit, if◌then◌else◌, ◌or◌, ◌or_else◌, encode_uri_component, ◌+◌, ◌/◌, not, ◌||◌,
  Option, none, some, [], ◌∷◌, ◌++◌,
}

abbrev pub user_of : Claims → User
user_of c = record {
  sub = c.sub;
  name = (c.name or_else c.preferred_username or_else c.email) or c.sub;
  email = c.email;
  username = c.preferred_username;
}

abbrev pub id_token_of : Option Tokens → Text
id_token_of none = []
id_token_of (some t) = t.id_token or []

module _ (pl : Platform) (cfg : OidcConfig) where
  pub token_request : Metadata → Pending → Text → TokenRequest
  token_request m p code = record {
    endpoint = m.token_endpoint;
    authorization =
        lit "Basic "
        ++ pl.base64
            (encode_uri_component cfg.client_id ++ b':' ∷ encode_uri_component cfg.client_secret);
    form =
        (lit "grant_type", lit "authorization_code")
        ∷ (lit "code", code)
        ∷ (lit "redirect_uri", redirect_uri cfg)
        ∷ (lit "code_verifier", p.verifier)
        ∷ [];
  }

  abbrev pub new_session : World → Text → Claims → Session
  new_session w id_token c = record {
    user = user_of c;
    id_token = id_token;
    expires = w.later + cfg.session_ttl_ms;
  }

  pub logged_in : World → Pending → Response
  logged_in w p = record {
    status = 302;
    headers =
        (location, p.return_to ∷ [])
        ∷ (
          set_cookie,
          clear cfg
              ∷ cookie session_cookie (w.token 0) (b'/' ∷ []) (cfg.session_ttl_ms / 1000)
                  (secure cfg)
              ∷ [],
        )
        ∷ (cache_control, lit "no-store" ∷ [])
        ∷ [];
    body = empty;
  }

  -- The last part: the claims of the id token, if `jwtVerify` accepts it, are held to the nonce.
  unfoldable pub admit : World → Pending → Text → Auth → Option Claims → Outcome × Auth
  unfolding logged_in login_failed
  admit w p id_token a none =
      (responds (login_failed cfg (lit "The identity provider sent an invalid token.")), a)
  admit w p id_token a (some c) =
      if is_text c.nonce p.nonce
      then (
        responds (logged_in w p),
        record a { sessions = put (w.token 0) (new_session w id_token c) a.sessions },
      )
      else (responds (login_failed cfg (lit "The login response did not match this login.")), a)

  unfoldable pub take_tokens : World → Pending → Metadata → Auth → Fetch Tokens → Outcome × Auth
  unfolding admit login_failed
  take_tokens w p m a failed = (throws, a)
  take_tokens w p m a (answered status body) =
      if not (is_ok status) || null (id_token_of body)
      then (responds (login_failed cfg (lit "The identity provider refused the login.")), a)
      else admit w p (id_token_of body) a
          (pl.jwt_verify (id_token_of body) m.jwks_uri (issuer_of cfg) cfg.client_id)

  -- `callback` from its first `await` on, on the state that it then finds.
  unfoldable pub callback_finish : World → Pending → Text → Auth → Outcome × Auth
  unfolding take_tokens token_request
  callback_finish w p code a = elim (provider cfg w a.metadata) [
    | none ↦ (throws, a)
    | some m ↦
        take_tokens w p m (record a { metadata = some m }) (w.exchange (token_request m p code))
  ]

  finish_begun : World → Begun × Auth → Outcome × Auth
  finish_begun w (rejected r, a) = (responds r, a)
  finish_begun w (accepted p code, a) = callback_finish w p code a

  -- `callback` with nothing in between.
  unfoldable pub callback : World → Request → Auth → Outcome × Auth
  unfolding finish_begun callback_begin callback_finish
  callback w req a = finish_begun w (callback_begin cfg w.now req a)
