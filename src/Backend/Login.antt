-- ===== src/Backend/Login.antt =====
-- `login`, and `callback` up to its first `await`, of web/src/backend/oidc.mjs.
use mesh2mesh.Backend.Config.{OidcConfig}
use mesh2mesh.Backend.Cookies.{read_cookie, cookie}
use mesh2mesh.Backend.Http.{cache_control, location, set_cookie, empty, Response, Request}
use mesh2mesh.Backend.Oidc.{
  Pending, Auth, Outcome, responds, throws, login_cookie, login_timeout_ms, redirect_uri, secure,
  is_text, safe_return_to,
}
use mesh2mesh.Backend.Provider.{Platform, Metadata, World, provider}
use mesh2mesh.Base.{
  Store, get, put, delete, Text, lit, text_eq, ltb, if◌then◌else◌, ◌or◌, ◌or_else◌, is_some,
  encode_uri_component, search_params, ℕ, ◌+◌, ◌/◌, not, ◌||◌, Option, none, some, [], ◌∷◌, ◌++◌,
}

-- What the callback has decided when it first waits.
pub data Begun : Type 0 where
  rejected : Response → Begun
  accepted : Pending → (code : Text) → Begun

abbrev pub state_of : Request → Text
state_of req = get (lit "state") req.query or []

-- The entry of a login in progress: the second token drawn is its verifier, the third its nonce.
abbrev pub new_pending : World → Request → Pending
new_pending w req = record {
  nonce = w.token 2;
  verifier = w.token 1;
  return_to = safe_return_to (get (lit "returnTo") req.query);
  expires = w.later + login_timeout_ms;
}

module _ (pl : Platform) (cfg : OidcConfig) where
  abbrev signup : Request → Store Text
  signup req = elim (get (lit "signup") req.query) [
    | none ↦ []
    | some v ↦ if text_eq v (lit "1") then (lit "prompt", lit "create") ∷ [] else []
  ]

  -- The query of the authorization request, for the state, the verifier and the nonce drawn.
  authorization_query : Request → Text → Text → Text → Store Text
  authorization_query req state verifier nonce =
      (lit "response_type", lit "code")
      ∷ (lit "client_id", cfg.client_id)
      ∷ (lit "redirect_uri", redirect_uri cfg)
      ∷ (lit "scope", lit "openid profile email")
      ∷ (lit "state", state)
      ∷ (lit "nonce", nonce)
      ∷ (lit "code_challenge", pl.sha256_base64url verifier)
      ∷ (lit "code_challenge_method", lit "S256")
      ∷ signup req

  login_response : Request → Metadata → Text → Text → Text → Response
  unfolding authorization_query
  login_response req m state verifier nonce = record {
    status = 302;
    headers =
        (
          location,
          pl.with_search m.authorization_endpoint
                (search_params (authorization_query req state verifier nonce))
              ∷ [],
        )
        ∷ (
          set_cookie,
          cookie login_cookie state (lit "/auth") (login_timeout_ms / 1000) (secure cfg) ∷ [],
        )
        ∷ (cache_control, lit "no-store" ∷ [])
        ∷ [];
    body = empty;
  }

  -- `login(req, res, url)`; the tokens drawn are the state, the verifier and the nonce.
  unfoldable pub login : World → Request → Auth → Outcome × Auth
  unfolding login_response
  login w req a = elim (provider cfg w a.metadata) [
    | none ↦ (throws, a)
    | some m ↦ (
      responds (login_response req m (w.token 0) (w.token 1) (w.token 2)),
      record a { logins = put (w.token 0) (new_pending w req) a.logins; metadata = some m },
    )
  ]

module _ (cfg : OidcConfig) where
  abbrev pub clear : Text
  clear = cookie login_cookie [] (lit "/auth") 0 (secure cfg)

  unfoldable pub login_failed : Text → Response
  login_failed reason = record {
    status = 302;
    headers =
        (location, (lit "/login?error=" ++ encode_uri_component reason) ∷ [])
        ∷ (set_cookie, clear ∷ [])
        ∷ [];
    body = empty;
  }

  unfoldable pub check_callback : ℕ → Request → Text → Option Pending → Begun
  unfolding login_failed
  check_callback now req state pending =
      if is_some (get (lit "error") req.query)
      then rejected (
          login_failed
            ((get (lit "error_description") req.query or_else get (lit "error") req.query) or []))
      else elim pending [
        | none ↦ rejected (
            login_failed
              (lit "The login expired or was started in another browser. Please try again."))
        | some p ↦
            if ltb p.expires now || not (is_text (read_cookie req.cookie login_cookie) state)
            then rejected (
                login_failed
                  (lit "The login expired or was started in another browser. Please try again."))
            else accepted p (get (lit "code") req.query or [])
      ]

  -- `callback(req, res, url)` up to its first `await`.
  unfoldable pub callback_begin : ℕ → Request → Auth → Begun × Auth
  unfolding check_callback
  callback_begin now req a = (
    check_callback now req (state_of req) (get (state_of req) a.logins),
    record a { logins = delete (state_of req) a.logins },
  )
