-- ===== src/Backend/Oidc.antt =====
-- The state of `createAuth` in web/src/backend/oidc.mjs: the sessions, the logins in progress and
-- the cached metadata, with the timer, the look-up of a session and the check of `returnTo`.
pub mod Sessions
pub mod ReturnTo
use mesh2mesh.Backend.Config.{OidcConfig}
use mesh2mesh.Backend.Cookies.{read_cookie, cookie}
use mesh2mesh.Backend.Http.{User, Response, Request}
use mesh2mesh.Backend.Provider.{Metadata}
use mesh2mesh.Base.{
  null, Store, get, delete, delete_where, Text, lit, text_eq, text_eq_iff, starts_with,
  drop_trailing_slashes, ltb, if◌then◌else◌, ℕ, ◌≡◌, ◌↔◌, Bool, true, false, not, ◌||◌, Option,
  none, some, [], ◌∷◌, ◌++◌, arith,
}

pub record Session : Type 0 where
  pub user : User
  pub id_token : Text
  pub expires : ℕ

pub record Pending : Type 0 where
  pub nonce : Text
  pub verifier : Text
  pub return_to : Text
  pub expires : ℕ

pub record Auth : Type 0 where
  pub sessions : Store Session
  pub logins : Store Pending
  pub metadata : Option Metadata

-- A handler answers, or its promise rejects.
pub data Outcome : Type 0 where
  responds : Response → Outcome
  throws : Outcome

abbrev pub session_cookie : Text
session_cookie = lit "m2m_session"

abbrev pub login_cookie : Text
login_cookie = lit "m2m_login"

abbrev pub login_timeout_ms : ℕ
login_timeout_ms = 600000

abbrev pub create_auth : Auth
create_auth = record { sessions = []; logins = []; metadata = none }

abbrev pub public_url_of : OidcConfig → Text
public_url_of cfg = drop_trailing_slashes cfg.public_url

abbrev pub redirect_uri : OidcConfig → Text
redirect_uri cfg = public_url_of cfg ++ lit "/auth/callback"

abbrev pub secure : OidcConfig → Bool
secure cfg = starts_with (lit "https://") (public_url_of cfg)

-- The timer that runs each minute.
unfoldable pub sweep : ℕ → Auth → Auth
sweep now a = record a {
  sessions = delete_where (λ v. ltb v.expires now) a.sessions;
  logins = delete_where (λ v. ltb v.expires now) a.logins;
}

-- `id && sessions.get(id)`
abbrev pub truthy_get {ℓ} : {V : Type ℓ} → Option Text → Store V → Option V
truthy_get none m = none
truthy_get (some id) m = if null id then none else get id m

abbrev pub delete_opt {ℓ} : {V : Type ℓ} → Option Text → Store V → Store V
delete_opt none m = m
delete_opt (some id) m = if null id then m else delete id m

abbrev pub fresh_or_delete : ℕ → Option Text → Auth → Option Session → Option Session × Auth
fresh_or_delete now id a none = (none, a)
fresh_or_delete now id a (some s) =
    if ltb s.expires now
    then (none, record a { sessions = delete_opt id a.sessions })
    else (some s, a)

-- `session(req)`
unfoldable pub session : ℕ → Request → Auth → Option Session × Auth
session now req a =
    let id = read_cookie req.cookie session_cookie in
    fresh_or_delete now id a (truthy_get id a.sessions)

-- `o === t`, for a text that may be absent
abbrev pub is_text : Option Text → Text → Bool
is_text none t = false
is_text (some s) t = text_eq s t

pub is_text_iff : (o : Option Text) (t : Text) → (is_text o t ≡ true) ↔ (o ≡ some t)
is_text_iff none t = ground arith
is_text_iff (some s) t = ground (arith, text_eq_iff s t)

unfoldable pub safe_return_to : Option Text → Text
safe_return_to none = lit "/admin"
safe_return_to (some raw) =
    if null raw
      || not (starts_with (b'/' ∷ []) raw)
      || starts_with (b'/' ∷ b'/' ∷ []) raw
      || starts_with (b'/' ∷ b'\\' ∷ []) raw
    then lit "/admin"
    else raw
