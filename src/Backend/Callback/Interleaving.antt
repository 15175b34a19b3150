-- ===== src/Backend/Callback/Interleaving.antt =====
-- The server of web/src/backend/oidc.mjs as steps: other requests and the timer run between the
-- `await`s of a callback. A callback that has been accepted and waits is a flight.
use mesh2mesh.Backend.Callback.{user_of, callback_finish}
use mesh2mesh.Backend.Config.{OidcConfig}
use mesh2mesh.Backend.Http.{Response, Request}
use mesh2mesh.Backend.Login.{rejected, accepted, new_pending, login, callback_begin}
use mesh2mesh.Backend.Logout.{logout}
use mesh2mesh.Backend.Oidc.{Session, Pending, Auth, create_auth, sweep, session}
use mesh2mesh.Backend.Provider.{Claims, Platform, Metadata, World, issuer_of, provider}
use mesh2mesh.Base.{Text, ℕ, ◌+◌, ◌≡◌, Option, none, some, List, [], ◌∷◌, ◌++◌}
use mathlib.Core.List.{Memᴰ}

-- The state, the flights with their codes, and, as a record of the past, the logins begun and the
-- number of flights that have landed.
pub record Flow : Type 0 where
  pub auth : Auth
  pub flights : List (Pending × Text)
  pub begun : List Pending
  pub landed : ℕ

abbrev pub initial : Flow
initial = record { auth = create_auth; flights = []; begun = []; landed = 0 }

-- The entry that a login adds, if it adds one.
abbrev pub began : Option Metadata → Pending → List Pending → List Pending
began none p ps = ps
began (some m) p ps = p ∷ ps

module _ (pl : Platform) (cfg : OidcConfig) where
  pub data Step (f : Flow) : Flow → Type 0 where
    looks_up : (now : ℕ) (req : Request) → Step f (record f { auth = (session now req f.auth).1 })
    logs_in :
        (w : World) (req : Request)
        → Step f (record f {
          auth = (login pl cfg w req f.auth).1;
          begun = began (provider cfg w f.auth.metadata) (new_pending w req) f.begun;
        })
    arrives :
        (now : ℕ) (req : Request) (p : Pending) (code : Text)
        → (callback_begin cfg now req f.auth).0 ≡ accepted p code
        → Step f (record f {
          auth = (callback_begin cfg now req f.auth).1;
          flights = (p, code) ∷ f.flights;
        })
    is_refused :
        (now : ℕ) (req : Request) (r : Response)
        → (callback_begin cfg now req f.auth).0 ≡ rejected r
        → Step f (record f { auth = (callback_begin cfg now req f.auth).1 })
    lands :
        (w : World) (front back : List (Pending × Text)) (p : Pending) (code : Text)
        → f.flights ≡ front ++ (p, code) ∷ back
        → Step f (record f {
          auth = (callback_finish pl cfg w p code f.auth).1;
          flights = front ++ back;
          landed = f.landed + 1;
        })
    logs_out :
        (w : World) (req : Request) → Step f (record f { auth = (logout pl cfg w req f.auth).1 })
    ticks : (now : ℕ) → Step f (record f { auth = sweep now f.auth })

  pub data Reach : Flow → Type 0 where
    start : Reach initial
    next : {f g : Flow} → Reach f → Step f g → Reach g

  -- Every session has an id token that was verified, with the nonce of a login that this server
  -- began, and its user is the one of the token's claims.
  pub record IsVouched (begun : List Pending) (s : Session) : Type 0 where
    pub jwks_uri : Text
    pub claims : Claims
    pub login_begun : Pending
    pub verified : pl.jwt_verify s.id_token jwks_uri (issuer_of cfg) cfg.client_id ≡ some claims
    pub is_begun : Memᴰ login_begun begun
    pub nonce_matches : claims.nonce ≡ some login_begun.nonce
    pub user_is : s.user ≡ user_of claims
