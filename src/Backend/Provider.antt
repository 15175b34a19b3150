-- ===== src/Backend/Provider.antt =====
-- The OIDC provider as web/src/backend/oidc.mjs uses it: what Node.js and `jose` do for the
-- server (`Platform`), what the provider answers, and the function `provider` with its cache.
use mesh2mesh.Backend.Config.{OidcConfig}
use mesh2mesh.Base.{
  Store, Text, lit, text_eq, drop_trailing_slashes, if◌then◌else◌, within, ◌or◌, ℕ, Bool, Option,
  none, some, ◌++◌,
}

-- `jwtVerify` gives the claims of a token that it accepts.
pub record Claims : Type 0 where
  pub sub : Text
  pub name : Option Text
  pub preferred_username : Option Text
  pub email : Option Text
  pub nonce : Option Text

-- Functions of Node.js and of `jose`: hashing, base64, `new URL(u)` with its `search` set to a
-- query, `new URL(u).origin`, and `jwtVerify(token, jwks, { issuer, audience })`.
pub record Platform : Type 0 where
  pub sha256_base64url : Text → Text
  pub base64 : Text → Text
  pub with_search : Text → Text → Text
  pub origin : Text → Text
  pub jwt_verify : (token jwks_uri issuer audience : Text) → Option Claims

-- The discovery document. `createRemoteJWKSet` is known by the address that it reads.
pub record Metadata : Type 0 where
  pub issuer : Text
  pub authorization_endpoint : Text
  pub token_endpoint : Text
  pub jwks_uri : Text
  pub end_session_endpoint : Option Text

-- The answer of the token endpoint, and what it is asked.
pub record Tokens : Type 0 where
  pub id_token : Option Text

pub record TokenRequest : Type 0 where
  pub endpoint : Text
  pub authorization : Text
  pub form : Store Text

-- A `fetch` rejects, or answers with a status and a body that is JSON of the expected shape or not.
pub data Fetch (A : Type 0) : Type 0 where
  failed : Fetch A
  answered : ℕ → Option A → Fetch A

-- `res.ok`
abbrev pub is_ok : ℕ → Bool
is_ok status = within 200 299 status

-- What one call sees of its surroundings: the clock when it begins and when it ends, the
-- answers that it gets, and the tokens that it draws.
pub record World : Type 0 where
  pub now : ℕ
  pub later : ℕ
  pub discovery : Fetch Metadata
  pub exchange : TokenRequest → Fetch Tokens
  pub token : ℕ → Text

abbrev pub issuer_of : OidcConfig → Text
issuer_of cfg = drop_trailing_slashes cfg.issuer

-- The document is taken only under the configured issuer.
unfoldable pub accept_document : OidcConfig → Option Metadata → Option Metadata
accept_document cfg none = none
accept_document cfg (some doc) = if text_eq doc.issuer (issuer_of cfg) then some doc else none

unfoldable pub discover : OidcConfig → Fetch Metadata → Option Metadata
unfolding accept_document
discover cfg failed = none
discover cfg (answered status body) = if is_ok status then accept_document cfg body else none

-- `provider()` on the cached `metadata`: the result, `none` where it throws. The cache holds the
-- result of the first call that succeeds.
unfoldable pub provider : OidcConfig → World → Option Metadata → Option Metadata
unfolding discover
provider cfg w none = discover cfg w.discovery
provider cfg w (some m) = some m

unfoldable pub discovery_url : OidcConfig → Text
discovery_url cfg =
    drop_trailing_slashes (cfg.internal_issuer or issuer_of cfg)
    ++ lit "/.well-known/openid-configuration"
