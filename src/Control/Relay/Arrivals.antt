-- ===== src/Control/Relay/Arrivals.antt =====
-- Datagrams that come in one after the other at internal/relay/relay.go.
use mesh2mesh.Base.{
  length, take, take-length, All, ltb, ℕ, ◌≤◌, ◌≡◌, refl, sym, ap, ◌∙◌, subst, true, false, some,
  List, [], ◌∷◌, ◌++◌, arith,
}
use mesh2mesh.Control.Netip.{AddrPort, is_valid}
use mesh2mesh.Control.Relay.{Relay, registered, register, handle_decoded, handle_frame}
use mesh2mesh.Control.Relay.Places.{registered-IsAt}
use mesh2mesh.Control.Relay.Reach.{
  RelayFlow, registrations_of, RelayReach, receives, RelayReach-IsSound,
}
use mesh2mesh.Control.Relay.Stays.{
  Sits, Keeps, keeps_self, Keeps_trans, Agrees, handle_frame-Keeps, handle_frame-Sits,
}
use mesh2mesh.Control.Wire.{type_relay_register, relay_token_len, encode}
use mesh2mesh.Control.Wire.RoundTrip.{decode_iff}
use mesh2mesh.Control.Relay.Places.{IsAt}

-- A datagram with its source, and the time at which it comes in.
abbrev pub Incoming : Type 0
Incoming = List ℕ × (AddrPort × ℕ)

abbrev pub receive_one : Incoming → RelayFlow → RelayFlow
receive_one (frame, (src, now)) f = record f {
  relay = (handle_frame frame src now f.relay).1;
  registrations = registrations_of frame src ++ f.registrations;
}

abbrev pub receive_all : List Incoming → RelayFlow → RelayFlow
receive_all [] f = f
receive_all (e ∷ es) f = receive_all es (receive_one e f)

-- From a time on, the registrations that come in with a token are those from the address.
abbrev pub IsSteady : List ℕ → AddrPort → ℕ → Incoming → Type 0
IsSteady k a since (frame, (src, now)) =
    All (Agrees k a) (registrations_of frame src) × (since ≤ now)

pub receive_all-append :
    (es fs : List Incoming) (f : RelayFlow)
    → receive_all (es ++ fs) f ≡ receive_all fs (receive_all es f)
receive_all-append [] fs f = refl
receive_all-append (e ∷ es) fs f = receive_all-append es fs (receive_one e f)

pub receive_all-RelayReach :
    (es : List Incoming) (f : RelayFlow) → RelayReach f → RelayReach (receive_all es f)
receive_all-RelayReach [] f reach = reach
receive_all-RelayReach ((frame, (src, now)) ∷ es) f reach =
    receive_all-RelayReach es _ (receives frame src now reach)

pub receive_all-Keeps :
    (es : List Incoming) (f : RelayFlow) → RelayReach f → Keeps f.relay (receive_all es f).relay
receive_all-Keeps [] f reach = keeps_self f.relay
receive_all-Keeps ((frame, (src, now)) ∷ es) f reach =
    Keeps_trans f.relay _ _
      (handle_frame-Keeps f.issued f.registrations f.relay (RelayReach-IsSound reach) now frame src)
      (receive_all-Keeps es _ (receives frame src now reach))

-- A registration's session sits at its address as long as what comes in is steady.
pub receive_all-Sits :
    (es : List Incoming) (f : RelayFlow) (s : ℕ) (a : AddrPort) (since : ℕ) (k : List ℕ)
    → RelayReach f
    → f.relay.by_token k ≡ some s
    → is_valid a ≡ true
    → All (IsSteady k a since) es
    → Sits s a since f.relay
    → Sits s a since (receive_all es f).relay
receive_all-Sits [] f s a since k reach held valid steady sits = sits
receive_all-Sits ((frame, (src, now)) ∷ es) f s a since k reach held valid ((agrees, later), steady)
      sits =
    let sound = RelayReach-IsSound reach in
    let kept = handle_frame-Keeps f.issued f.registrations f.relay sound now frame src in
    receive_all-Sits es _ s a since k (receives frame src now reach)
      (ap (λ m. m k) kept.tokens ∙ held) valid steady
      (handle_frame-Sits f.issued f.registrations f.relay sound now s a since k held valid later
        sits frame src agrees)

handle_frame-register :
    (k : List ℕ) (src : AddrPort) (now : ℕ) (r : Relay)
    → length k ≡ relay_token_len
    → handle_frame (encode [] type_relay_register k) src now r
      ≡ registered (r.by_token k) k src now r
unfolding handle_frame register
handle_frame-register k src now r e =
    let whole : take 16 k ≡ k = subst (λ m. take m k ≡ k) e (take-length k) in
    let long : ltb (length k) relay_token_len ≡ false = ground arith in
    ap (λ d. handle_decoded d (encode [] type_relay_register k) src now r)
      (decode_iff [] [] type_relay_register k).1
    ∙ rw (long, whole) refl

-- Among the datagrams that come in, a registration with the token from the address at the time, after
-- which this token registers from nowhere else, and no other from that address.
pub record LastRegistration (k : List ℕ) (a : AddrPort) (t : ℕ) (es : List Incoming) : Type 0 where
  pub earlier : List Incoming
  pub later : List Incoming
  pub whole : es ≡ earlier ++ (encode [] type_relay_register k, (a, t)) ∷ later
  pub steady : All (IsSteady k a t) later

registration-Sits :
    (f : RelayFlow) (s : ℕ) (k : List ℕ) (a : AddrPort) (t : ℕ)
    → RelayReach f
    → f.relay.by_token k ≡ some s
    → length k ≡ relay_token_len
    → is_valid a ≡ true
    → Sits s a t (receive_one (encode [] type_relay_register k, (a, t)) f).relay
registration-Sits f s k a t reach held len valid = record {
  seen = t;
  is_at =
      subst (IsAt s a t)
        (sym (
          ap (λ x. x.1)
            (handle_frame-register k a t f.relay len ∙ ap (λ o. registered o k a t f.relay) held)))
        (registered-IsAt f.issued f.registrations f.relay (RelayReach-IsSound reach) s a t k held
          valid);
  seen_since = omega arith;
}

pub LastRegistration-Sits :
    (f : RelayFlow) (s : ℕ) (k : List ℕ) (a : AddrPort) (t : ℕ) (es : List Incoming)
    → RelayReach f
    → f.relay.by_token k ≡ some s
    → length k ≡ relay_token_len
    → is_valid a ≡ true
    → LastRegistration k a t es
    → Sits s a t (receive_all es f).relay
LastRegistration-Sits f s k a t es reach held len valid last =
    let frame = encode [] type_relay_register k in
    let f1 = receive_all last.earlier f in
    let reach1 = receive_all-RelayReach last.earlier f reach in
    let held1 = ap (λ m. m k) (receive_all-Keeps last.earlier f reach).tokens ∙ held in
    let reach2 = receives frame a t reach1 in
    let f2 = receive_one (frame, (a, t)) f1 in
    let held2 =
      ap (λ m. m k)
        (handle_frame-Keeps f1.issued f1.registrations f1.relay (RelayReach-IsSound reach1) t frame
          a).tokens
      ∙ held1 in
    subst (λ g. Sits s a t g.relay)
      (sym (ap (λ l. receive_all l f) last.whole ∙ receive_all-append last.earlier _ f))
      (receive_all-Sits last.later f2 s a t k reach2 held2 valid last.steady
        (registration-Sits f1 s k a t reach1 held1 len valid))
