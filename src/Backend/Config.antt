-- ===== src/Backend/Config.antt =====
-- web/src/backend/config.mjs.
pub mod Checks
use mesh2mesh.Base.{
  null, Text, lit, text_eq, drop_trailing_slashes, show, if◌then◌else◌, ◌or◌, ℕ, ◌*◌, Bool, true,
  false, not, ◌&&◌, Option, none, some, [], ◌++◌,
}

-- The variables of `process.env` that the server reads.
pub record Env : Type 0 where
  pub port : Option Text
  pub controlplane_url : Option Text
  pub public_api_url : Option Text
  pub controlplane_token : Option Text
  pub auth_disabled : Option Text
  pub oidc_issuer : Option Text
  pub oidc_internal_issuer : Option Text
  pub oidc_client_id : Option Text
  pub oidc_client_secret : Option Text
  pub public_url : Option Text
  pub session_ttl_hours : Option Text

pub record OidcConfig : Type 0 where
  pub issuer : Text
  pub internal_issuer : Option Text
  pub client_id : Text
  pub client_secret : Text
  pub public_url : Text
  pub session_ttl_ms : ℕ

pub record Config : Type 0 where
  pub listen_port : ℕ
  pub control_plane : Text
  pub public_api_url : Text
  pub control_plane_token : Text
  pub oidc : Option OidcConfig

-- The two messages with which the server exits.
pub data Refusal : Type 0 where
  no_token no_issuer : Refusal

pub data Loaded : Type 0 where
  loaded : Config → Loaded
  exits : Refusal → Loaded

-- `!s` for a text that may be absent, and `s || undefined`
abbrev blank : Option Text → Bool
blank none = true
blank (some s) = null s

abbrev non_blank : Option Text → Option Text
non_blank o = if blank o then none else o

-- `env.AUTH_DISABLED === "true"`
abbrev auth_is_disabled : Option Text → Bool
auth_is_disabled none = false
auth_is_disabled (some s) = text_eq s (lit "true")

-- `number` is JavaScript's `Number`, at the texts that spell a natural number.
module _ (number : Text → ℕ) where
  abbrev number_or : Option Text → ℕ → ℕ
  number_or none d = d
  number_or (some s) d = number s

  oidc_config : Env → OidcConfig
  oidc_config env = record {
    issuer = env.oidc_issuer or [];
    internal_issuer = non_blank env.oidc_internal_issuer;
    client_id = env.oidc_client_id or lit "mesh2mesh-web";
    client_secret = env.oidc_client_secret or [];
    public_url = env.public_url or lit "http://localhost:" ++ show (number_or env.port 8080);
    session_ttl_ms = number_or env.session_ttl_hours 8 * 3600000;
  }

  abbrev control_plane_of : Env → Text
  control_plane_of env = drop_trailing_slashes (env.controlplane_url or lit "http://localhost:8090")

  config_of : Env → Option OidcConfig → Config
  config_of env oidc = record {
    listen_port = number_or env.port 8080;
    control_plane = control_plane_of env;
    public_api_url = env.public_api_url or control_plane_of env;
    control_plane_token = env.controlplane_token or [];
    oidc = oidc;
  }

  pub load : Env → Loaded
  unfolding oidc_config config_of
  load env =
      if null (env.controlplane_token or [])
      then exits no_token
      else if not (auth_is_disabled env.auth_disabled) && blank env.oidc_issuer
      then exits no_issuer
      else loaded (
          config_of env
            (if auth_is_disabled env.auth_disabled then none else some (oidc_config env)))
