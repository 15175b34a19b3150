-- ===== src/Backend/Session.antt =====
-- web/src/backend/session.mjs. `auth` is null exactly when the configuration has no `oidc`.
use mesh2mesh.Backend.Config.{OidcConfig}
use mesh2mesh.Backend.Http.{User, Request}
use mesh2mesh.Backend.Oidc.{Session, Auth, public_url_of, session, is_text}
use mesh2mesh.Backend.Provider.{Platform}
use mesh2mesh.Base.{lit, ℕ, Bool, false, not, Option, none, some}

abbrev pub dev_user : User
dev_user = record {
  sub = lit "dev";
  name = lit "Local developer";
  email = none;
  username = some (lit "dev");
}

abbrev pub user_of_session : Option Session → Option User
user_of_session none = none
user_of_session (some s) = some s.user

-- `currentUser(req)`, with the state that the look-up leaves.
unfoldable pub current_user : Option OidcConfig → ℕ → Request → Auth → Option User × Auth
current_user none now req a = (some dev_user, a)
current_user (some cfg) now req a = let (s, a') = session now req a in (user_of_session s, a')

unfoldable pub cross_origin : Platform → Option OidcConfig → Request → Bool
cross_origin pl none req = false
cross_origin pl (some cfg) req = not (is_text req.origin (pl.origin (public_url_of cfg)))
