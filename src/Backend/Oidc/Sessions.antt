-- ===== src/Backend/Oidc/Sessions.antt =====
-- The session store of web/src/backend/oidc.mjs: look-ups, expiry and the timer.
use mesh2mesh.Backend.Cookies.{read_cookie}
use mesh2mesh.Backend.Http.{Request}
use mesh2mesh.Backend.Oidc.{
  Session, Auth, session_cookie, sweep, truthy_get, fresh_or_delete, session,
}
use mesh2mesh.Base.{
  null, All, Store, get, delete, delete_where, get-delete, IsMap, unless, get-delete_where, Text,
  text_eq_iff, ltb, Bool-cases, Option-cases, ℕ, ◌≤◌, ◌<◌, ◌≡◌, refl, inl, inr, Bool, true, Option,
  none, some, List, [], ◌∷◌, arith,
}

-- The session that a request stands for at a time, with no effect on the store.
unfoldable pub live_session : ℕ → Option Text → Auth → Option Session
live_session now id a = unless (λ s. ltb s.expires now) (truthy_get id a.sessions)

live_session-delete :
    (now later : ℕ) (id : Text) (other : Option Text) (a : Auth) (s : Session)
    → now ≤ later
    → get id a.sessions ≡ some s
    → s.expires < now
    → live_session later other (record a { sessions = delete id a.sessions })
      ≡ live_session later other a
unfolding live_session
live_session-delete now later id none a s h e x = refl
live_session-delete now later id (some other) a s h e x =
    ground (arith, get-delete id other a.sessions, text_eq_iff id other)

session-fst :
    (now : ℕ) (id : Option Text) (a : Auth)
    → (fresh_or_delete now id a (truthy_get id a.sessions)).0 ≡ live_session now id a
unfolding live_session
session-fst now none a = refl
session-fst now (some id) a = ground arith

session-snd :
    (now later : ℕ) (id other : Option Text) (a : Auth)
    → now ≤ later
    → live_session later other (fresh_or_delete now id a (truthy_get id a.sessions)).1
      ≡ live_session later other a
session-snd now later none other a h = refl
session-snd now later (some id) other a h = elim (Bool-cases (null id)) [
  | inl e ↦ rw e refl
  | inr e ↦ rw e (elim (Option-cases (get id a.sessions)) [
    | inl missing ↦ rw missing refl
    | inr (s, found) ↦ rw found (elim (Bool-cases (ltb s.expires now)) [
      | inl old ↦ rw (old, e) (live_session-delete now later id other a s h found (ground arith))
      | inr new ↦ rw new refl
    ])
  ])
]

-- A request stands for the session that its cookie names and that has not run out, and for none
-- otherwise; the look-up changes nothing that a request stands for, then or later.
pub session_lem :
    (now later : ℕ) (req : Request) (other : Option Text) (a : Auth)
    → now ≤ later
    → ((session now req a).0 ≡ live_session now (read_cookie req.cookie session_cookie) a)
      × (live_session later other (session now req a).1 ≡ live_session later other a)
unfolding session
session_lem now later req other a h =
    let id = read_cookie req.cookie session_cookie in
    (session-fst now id a, session-snd now later id other a h)

unless_twice {ℓ} :
    {V : Type ℓ} (p q : V → Bool) (o : Option V)
    → ((v : V) → p v ≡ true → q v ≡ true)
    → unless q (unless p o) ≡ unless q o
unless_twice p q none h = refl
unless_twice p q (some v) h = ground (arith, h v)

abbrev AllLive : ℕ → List (Text × Session) → Type 0
AllLive now m = All (λ e. now ≤ e.1.expires) m

delete_where-live :
    (now : ℕ) (m : Store Session) → AllLive now (delete_where (λ v. ltb v.expires now) m)
unfolding delete_where
delete_where-live now [] = tt
delete_where-live now ((k, v) ∷ m) = ground (arith, delete_where-live now m)

-- The timer deletes every session that has run out, and no request, then or later, sees that it
-- ran. The keys of the store are distinct.
pub sweep_lem :
    (now later : ℕ) (id : Text) (a : Auth)
    → IsMap a.sessions
    → now ≤ later
    → All (λ e. now ≤ e.1.expires) (sweep now a).sessions
      × (live_session later (some id) (sweep now a) ≡ live_session later (some id) a)
unfolding sweep live_session
sweep_lem now later id a v h = (
  delete_where-live now a.sessions,
  elim (Bool-cases (null id)) [
    | inl e ↦ rw e refl
    | inr e ↦
        rw (e, get-delete_where (λ s. ltb s.expires now) id a.sessions v)
          (unless_twice _ _ (get id a.sessions) (λ s k. ground arith))
  ],
)
