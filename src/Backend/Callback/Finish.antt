-- ===== src/Backend/Callback/Finish.antt =====
-- What `callback` of web/src/backend/oidc.mjs does from its first `await` on.
use mesh2mesh.Backend.Callback.{
  id_token_of, token_request, new_session, logged_in, admit, take_tokens, callback_finish,
}
use mesh2mesh.Backend.Config.{OidcConfig}
use mesh2mesh.Backend.Oidc.{Pending, Auth, Outcome, responds, is_text, is_text_iff}
use mesh2mesh.Backend.Provider.{
  Claims, Platform, Metadata, Tokens, Fetch, failed, answered, is_ok, World, issuer_of, provider,
}
use mesh2mesh.Base.{
  null, put, Text, Bool-cases, Option-cases, ◌≡◌, refl, ap, ◌⊎◌, inl, inr, not, ◌||◌, Option, none,
  some, arith,
}

-- A new session for a login: the provider's id token was verified for this issuer and client, and
-- carries the nonce of the login.
pub record IsGranted (pl : Platform) (cfg : OidcConfig) (w : World) (p : Pending)
    (before after : Auth) (o : Outcome) : Type 0 where
  pub id_token : Text
  pub jwks_uri : Text
  pub claims : Claims
  pub verified : pl.jwt_verify id_token jwks_uri (issuer_of cfg) cfg.client_id ≡ some claims
  pub nonce_matches : claims.nonce ≡ some p.nonce
  pub stored :
      after.sessions ≡ put (w.token 0) (new_session pl cfg w id_token claims) before.sessions
  pub answers : o ≡ responds (logged_in pl cfg w p)

-- No new session.
abbrev pub IsDenied : Auth → Auth → Type 0
IsDenied before after = after.sessions ≡ before.sessions

module _ (pl : Platform) (cfg : OidcConfig) where
  admit_cases :
      (w : World) (p : Pending) (id_token jwks : Text) (before a : Auth) (o : Option Claims)
      → a.sessions ≡ before.sessions
      → pl.jwt_verify id_token jwks (issuer_of cfg) cfg.client_id ≡ o
      → IsDenied before (admit pl cfg w p id_token a o).1
        ⊎ IsGranted pl cfg w p before
            (admit pl cfg w p id_token a o).1
            (admit pl cfg w p id_token a o).0
  unfolding admit
  admit_cases w p id_token jwks before a none e v = inl e
  admit_cases w p id_token jwks before a (some c) e v =
      elim (Bool-cases (is_text c.nonce p.nonce)) [
        | inl same ↦ rw same (
            inr (record {
              id_token = id_token;
              jwks_uri = jwks;
              claims = c;
              verified = v;
              nonce_matches = (is_text_iff c.nonce p.nonce).0 same;
              stored = ap (put (w.token 0) (new_session pl cfg w id_token c)) e;
              answers = refl;
            }))
        | inr other ↦ rw other (inl e)
      ]

  take_tokens_cases :
      (w : World) (p : Pending) (m : Metadata) (before a : Auth) (f : Fetch Tokens)
      → a.sessions ≡ before.sessions
      → IsDenied before (take_tokens pl cfg w p m a f).1
        ⊎ IsGranted pl cfg w p before
            (take_tokens pl cfg w p m a f).1
            (take_tokens pl cfg w p m a f).0
  unfolding take_tokens
  take_tokens_cases w p m before a failed e = inl e
  take_tokens_cases w p m before a (answered status body) e =
      elim (Bool-cases (not (is_ok status) || null (id_token_of body))) [
        | inl bad ↦ rw bad (inl e)
        | inr good ↦ rw good (admit_cases w p (id_token_of body) m.jwks_uri before a _ e refl)
      ]

  take_tokens-logins :
      (w : World) (p : Pending) (m : Metadata) (a : Auth) (f : Fetch Tokens)
      → (take_tokens pl cfg w p m a f).1.logins ≡ a.logins
  unfolding take_tokens admit
  take_tokens-logins w p m a failed = refl
  take_tokens-logins w p m a (answered status body) =
      elim (Option-cases
        (pl.jwt_verify (id_token_of body) m.jwks_uri (issuer_of cfg) cfg.client_id)) [
          | inl e ↦ ground arith
          | inr (c, e) ↦ ground arith
        ]

  -- A callback that was accepted ends in one of two ways: the sessions stay as they were, or one
  -- session is added, under a fresh token, for the user of an id token that was verified for this
  -- issuer and client and that carries the nonce of the login; then the browser is sent to the
  -- login's return path. The logins in progress stay as they are.
  pub callback_finish_cases :
      (w : World) (p : Pending) (code : Text) (a : Auth)
      → (IsDenied a (callback_finish pl cfg w p code a).1
          ⊎ IsGranted pl cfg w p a
              (callback_finish pl cfg w p code a).1
              (callback_finish pl cfg w p code a).0)
        × ((callback_finish pl cfg w p code a).1.logins ≡ a.logins)
  unfolding callback_finish
  callback_finish_cases w p code a = elim (Option-cases (provider cfg w a.metadata)) [
    | inl e ↦ rw (e, callback_finish) (inl refl, refl)
    | inr (m, e) ↦
        rw (e, callback_finish)
          (
            take_tokens_cases w p m a (record a { metadata = some m })
                (w.exchange (token_request pl cfg m p code)) refl,
            take_tokens-logins w p m (record a { metadata = some m })
                (w.exchange (token_request pl cfg m p code)),
          )
  ]
