-- ===== src/Backend/Callback/Vouched.antt =====
-- What holds of the OIDC flow of web/src/backend/oidc.mjs in every order of its steps.
use mesh2mesh.Backend.Callback.{new_session, callback_finish}
use mesh2mesh.Backend.Callback.Accepted.{callback_begin_lem}
use mesh2mesh.Backend.Callback.Finish.{IsGranted, IsDenied, callback_finish_cases}
use mesh2mesh.Backend.Callback.Interleaving.{
  Flow, began, Step, looks_up, logs_in, arrives, is_refused, lands, logs_out, ticks, Reach, start,
  next, IsVouched,
}
use mesh2mesh.Backend.Config.{OidcConfig}
use mesh2mesh.Backend.Cookies.{read_cookie}
use mesh2mesh.Backend.Http.{Request}
use mesh2mesh.Backend.Login.{state_of, new_pending, login, callback_begin}
use mesh2mesh.Backend.Logout.{logout_known, logout}
use mesh2mesh.Backend.Oidc.{
  Session, Pending, Auth, Outcome, session_cookie, sweep, truthy_get, delete_opt, fresh_or_delete,
  session,
}
use mesh2mesh.Backend.Provider.{Platform, Metadata, World, provider}
use mesh2mesh.Base.{
  length, null, length-append, All, All-parts, All-map, Store, get, delete, length-put-le,
  length-delete-le, length-delete-lt, length-delete_where-le, AllValues, put-AllValues,
  delete-AllValues, delete_where-AllValues, get-AllValues, AllValues-map, Text, ltb, Bool-cases, ℕ,
  ◌+◌, ◌≤◌, ◌≡◌, refl, sym, ap, subst, ◌⊎◌, inl, inr, Option, none, some, List, ◌∷◌, ◌++◌, arith,
}
use mathlib.Core.List.{Memᴰ}
use mathlib.Core.List.Memᴰ.{head, tail}

delete_opt-AllValues :
    (P : Session → Type 0) (id : Option Text) (m : Store Session)
    → AllValues P m
    → AllValues P (delete_opt id m)
delete_opt-AllValues P none m h = h
delete_opt-AllValues P (some id) m h = elim (Bool-cases (null id)) [
  | inl e ↦ rw e h
  | inr e ↦ rw e (delete-AllValues P id m h)
]

fresh-AllValues :
    (P : Session → Type 0) (now : ℕ) (id : Option Text) (a : Auth) (o : Option Session)
    → AllValues P a.sessions
    → AllValues P (fresh_or_delete now id a o).1.sessions
      × ((fresh_or_delete now id a o).1.logins ≡ a.logins)
fresh-AllValues P now id a none h = (h, refl)
fresh-AllValues P now id a (some s) h = elim (Bool-cases (ltb s.expires now)) [
  | inl e ↦ rw e (delete_opt-AllValues P id a.sessions h, refl)
  | inr e ↦ rw e (h, refl)
]

module _ (pl : Platform) (cfg : OidcConfig) where
  pub record IsSound (f : Flow) : Type 0 where
    pub counted : f.landed + length f.flights + length f.auth.logins ≤ length f.begun
    pub waiting : AllValues (λ p. Memᴰ p f.begun) f.auth.logins
    pub flying : All (λ e. Memᴰ e.0 f.begun) f.flights
    pub vouched : AllValues (IsVouched pl cfg f.begun) f.auth.sessions

  IsVouched-more :
      (q : Pending) (ps : List Pending) (s : Session)
      → IsVouched pl cfg ps s
      → IsVouched pl cfg (q ∷ ps) s
  IsVouched-more q ps s v = record {
    jwks_uri = v.jwks_uri;
    claims = v.claims;
    login_begun = v.login_begun;
    verified = v.verified;
    is_begun = tail v.is_begun;
    nonce_matches = v.nonce_matches;
    user_is = v.user_is;
  }

  -- A handler that leaves the logins and the flights, and keeps what holds of all sessions.
  sessions-IsSound :
      (f : Flow) (a : Auth)
      → a.logins ≡ f.auth.logins
      → AllValues (IsVouched pl cfg f.begun) a.sessions
      → IsSound f
      → IsSound (record f { auth = a })
  sessions-IsSound f a e v h = record {
    counted = rw e h.counted;
    waiting = rw e h.waiting;
    flying = h.flying;
    vouched = v;
  }

  session-AllValues :
      (P : Session → Type 0) (now : ℕ) (req : Request) (a : Auth)
      → AllValues P a.sessions
      → AllValues P (session now req a).1.sessions × ((session now req a).1.logins ≡ a.logins)
  unfolding session
  session-AllValues P now req a h =
      let id = read_cookie req.cookie session_cookie in
      fresh-AllValues P now id a (truthy_get id a.sessions) h

  logout_known-keeps :
      (w : World) (a : Auth) (o : Option Session)
      → ((logout_known pl cfg w a o).1.sessions ≡ a.sessions)
        × ((logout_known pl cfg w a o).1.logins ≡ a.logins)
  unfolding logout_known
  logout_known-keeps w a none = (refl, refl)
  logout_known-keeps w a (some s) = (refl, refl)

  logout-AllValues :
      (P : Session → Type 0) (w : World) (req : Request) (a : Auth)
      → AllValues P a.sessions
      → AllValues P (logout pl cfg w req a).1.sessions
        × ((logout pl cfg w req a).1.logins ≡ a.logins)
  unfolding logout
  logout-AllValues P w req a h =
      let id = read_cookie req.cookie session_cookie in
      let a' : Auth = record a { sessions = delete_opt id a.sessions } in
      let (s, l) = logout_known-keeps w a' (truthy_get id a.sessions) in
      (subst (AllValues P) (sym s) (delete_opt-AllValues P id a.sessions h), l)

  begin-IsSound :
      (f : Flow) (req : Request) (p : Pending) (code : Text)
      → get (state_of req) f.auth.logins ≡ some p
      → IsSound f
      → IsSound (record f {
        auth = record (f.auth) { logins = delete (state_of req) f.auth.logins };
        flights = (p, code) ∷ f.flights;
      })
  begin-IsSound f req p code e h = record {
    counted = omega (arith, h.counted, length-delete-lt (state_of req) f.auth.logins p e);
    waiting = delete-AllValues _ (state_of req) f.auth.logins h.waiting;
    flying =
        (get-AllValues (λ q. Memᴰ q f.begun) (state_of req) f.auth.logins p h.waiting e, h.flying);
    vouched = h.vouched;
  }

  drop-IsSound :
      (f : Flow) (k : Text)
      → IsSound f
      → IsSound (record f { auth = record (f.auth) { logins = delete k f.auth.logins } })
  drop-IsSound f k h = record {
    counted = omega (arith, h.counted, length-delete-le k f.auth.logins);
    waiting = delete-AllValues _ k f.auth.logins h.waiting;
    flying = h.flying;
    vouched = h.vouched;
  }

  sweep-IsSound : (f : Flow) (now : ℕ) → IsSound f → IsSound (record f { auth = sweep now f.auth })
  unfolding sweep
  sweep-IsSound f now h = record {
    counted =
        omega (arith, h.counted, length-delete_where-le (λ v. ltb v.expires now) f.auth.logins);
    waiting = delete_where-AllValues _ _ f.auth.logins h.waiting;
    flying = h.flying;
    vouched = delete_where-AllValues _ _ f.auth.sessions h.vouched;
  }

  login-IsSound :
      (f : Flow) (w : World) (req : Request) (o : Option Metadata)
      → provider cfg w f.auth.metadata ≡ o
      → IsSound f
      → IsSound (record f {
        auth = (login pl cfg w req f.auth).1;
        begun = began (provider cfg w f.auth.metadata) (new_pending w req) f.begun;
      })
  unfolding login
  login-IsSound f w req none e h = rw (e, login) h
  login-IsSound f w req (some m) e h =
      let q = new_pending w req in
      rw (e, login)
        (record {
          counted = omega (arith, h.counted, length-put-le (w.token 0) q f.auth.logins);
          waiting =
              put-AllValues _ (w.token 0) q f.auth.logins (head refl)
                (AllValues-map _ _ (λ p i. tail i) f.auth.logins h.waiting);
          flying = All-map _ _ (λ e i. tail i) f.flights h.flying;
          vouched =
              AllValues-map _ _ (λ s v. IsVouched-more q f.begun s v) f.auth.sessions h.vouched;
        })

  granted-AllValues :
      (w : World) (p : Pending) (ps : List Pending) (before after : Auth) (o : Outcome)
      → Memᴰ p ps
      → IsDenied before after ⊎ IsGranted pl cfg w p before after o
      → AllValues (IsVouched pl cfg ps) before.sessions
      → AllValues (IsVouched pl cfg ps) after.sessions
  granted-AllValues w p ps before after o i (inl e) h = rw e h
  granted-AllValues w p ps before after o i (inr g) h = rw g.stored (
      put-AllValues _ (w.token 0) (new_session pl cfg w g.id_token g.claims) before.sessions
        (record {
          jwks_uri = g.jwks_uri;
          claims = g.claims;
          login_begun = p;
          verified = g.verified;
          is_begun = i;
          nonce_matches = g.nonce_matches;
          user_is = refl;
        })
        h)

  land-IsSound :
      (f : Flow) (w : World) (front back : List (Pending × Text)) (p : Pending) (code : Text)
      → f.flights ≡ front ++ (p, code) ∷ back
      → IsSound f
      → IsSound (record f {
        auth = (callback_finish pl cfg w p code f.auth).1;
        flights = front ++ back;
        landed = f.landed + 1;
      })
  land-IsSound f w front back p code e h =
      let (cases, logins) = callback_finish_cases pl cfg w p code f.auth in
      let (i, others) = All-parts _ front (p, code) back (subst (All _) e h.flying) in
      record {
        counted = omega (
          arith,
          h.counted,
          ap length e,
          ap length logins,
          length-append front ((p, code) ∷ back),
          length-append front back,
        );
        waiting = rw logins h.waiting;
        flying = others;
        vouched = granted-AllValues w p f.begun f.auth _ _ i cases h.vouched;
      }

  Step-IsSound : {f g : Flow} → Step pl cfg f g → IsSound f → IsSound g
  unfolding callback_begin
  Step-IsSound {f} (looks_up now req) h =
      let (v, l) = session-AllValues _ now req f.auth h.vouched in
      sessions-IsSound f (session now req f.auth).1 l v h
  Step-IsSound {f} (logs_in w req) h = login-IsSound f w req (provider cfg w f.auth.metadata) refl h
  Step-IsSound {f} (arrives now req p code e) h =
      begin-IsSound f req p code ((callback_begin_lem cfg now req f.auth p code).0.0 e).known h
  Step-IsSound {f} (is_refused now req r e) h = drop-IsSound f (state_of req) h
  Step-IsSound {f} (lands w front back p code e) h = land-IsSound f w front back p code e h
  Step-IsSound {f} (logs_out w req) h =
      let (v, l) = logout-AllValues _ w req f.auth h.vouched in
      sessions-IsSound f (logout pl cfg w req f.auth).1 l v h
  Step-IsSound {f} (ticks now) h = sweep-IsSound f now h

  -- In every order of logins, callbacks, look-ups, logouts and timer runs, with other steps
  -- between the two halves of a callback: each session has an id token that was verified for this
  -- issuer and client, with the nonce of a login that this server began, and belongs to the user
  -- of that token; and the callbacks that were let through are no more than the logins begun.
  pub Reach-IsSound : {f : Flow} → Reach pl cfg f → IsSound f
  Reach-IsSound start = record { counted = omega arith; waiting = tt; flying = tt; vouched = tt }
  Reach-IsSound (next r st) = Step-IsSound st (Reach-IsSound r)
