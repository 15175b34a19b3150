-- ===== src/Control/Prober/Ends.antt =====
-- How a call of `Reachable` in internal/prober/prober.go goes on among others, and ends.
use mesh2mesh.Base.{
  length, take, All, ltb, ◌==◌, if◌then◌else◌, Bool-cases, ℕ, ◌≤◌, ◌<◌, ◌≡◌, refl, sym, ap, ◌∙◌,
  subst, ◌⊎◌, inl, inr, Bool, true, false, not, ◌&&◌, ◌||◌, Option, none, some, List, [], ◌∷◌, ◌++◌,
  arith,
}
use mesh2mesh.Control.Netip.{AddrPort, addr_port_eq}
use mesh2mesh.Control.Prober.{
  Waiter, Phase, to_write, Call, Prober, probe_retries, is_target, begin_call, Signal, write_ends,
  deadline_passed, advance, is_returned, probe_of, step_found, step_call, to_relay, answer_waiter,
  take_reply, dispatch, unmapped, receive,
}
use mesh2mesh.Control.Prober.Calls.{run_call, run_call-sends, probe, run_call-probe}
use mesh2mesh.Control.Relay.{Relay, Datagram}
use mesh2mesh.Control.Wire.{
  type_probe_reply, type_binding_request, type_relay_register, type_relay_data, nonce_len,
  max_frame_len, Decoded, decoded, malformed, decode,
}

-- A step of the call itself; or one of another call, a new call, or a datagram.
pub data Move : Type 0 where
  own : Signal → Move
  another : (d : ℕ) → Signal → Move
  starts_call : (target : AddrPort) (nonce : List ℕ) → Move
  reads : (datagram : List ℕ) (from : AddrPort) (now : ℕ) → Move

abbrev is_own : ℕ → ℕ → Bool
is_own c d = c == d

-- What the call's own steps send. A step of another call is of another number.
abbrev pub run_moves : ℕ → List Move → Prober → List Datagram × Prober
run_moves c [] p = ([], p)
run_moves c (own signal ∷ moves) p =
    let (sends, p') = step_call c signal p in
    let (more, last) = run_moves c moves p' in (sends ++ more, last)
run_moves c (another d signal ∷ moves) p =
    run_moves c moves (if is_own c d then p else (step_call d signal p).1)
run_moves c (starts_call target nonce ∷ moves) p = run_moves c moves (begin_call target nonce p)
run_moves c (reads datagram from now ∷ moves) p = run_moves c moves (receive datagram from now p).1

pub record IsAt (c : ℕ) (call : Call) (p : Prober) : Type 0 where
  pub its : p.calls c ≡ some call
  pub known : c < p.fresh

-- The calls and their numbers are the same after a datagram.
abbrev Same : Prober → Prober → Type 0
Same after p = (after.calls ≡ p.calls) × (after.fresh ≡ p.fresh)

receive-Same :
    (datagram : List ℕ) (from : AddrPort) (now : ℕ) (p : Prober)
    → Same (receive datagram from now p).1 p
unfolding receive
receive-Same datagram from now p = of_frame (decode (take max_frame_len datagram))
  where
    waited : (o : Option Waiter) (nonce : List ℕ) → Same (answer_waiter o nonce (unmapped from) p) p
    waited none nonce = (refl, refl)
    waited (some w) nonce = elim (Bool-cases (addr_port_eq (unmapped from) w.target)) [
      | inl there ↦ rw there (refl, refl)
      | inr elsewhere ↦ rw elsewhere (refl, refl)
    ]

    taken : (payload : List ℕ) → Same (take_reply payload (unmapped from) p) p
    taken payload = elim (Bool-cases (ltb (length payload) nonce_len)) [
      | inl short ↦ rw short (refl, refl)
      | inr long ↦ rw long (waited (p.waiters (take nonce_len payload)) (take nonce_len payload))
    ]

    handed : (o : Option Relay) (frame : List ℕ) → Same (to_relay o frame (unmapped from) now p).1 p
    handed none frame = (refl, refl)
    handed (some relay) frame = (refl, refl)

    of_frame :
        (d : Decoded) → Same (dispatch d (take max_frame_len datagram) (unmapped from) now p).1 p
    of_frame (malformed e) = (refl, refl)
    of_frame (decoded type payload) = elim (Bool-cases (type == type_binding_request)) [
      | inl binding ↦ rw binding (refl, refl)
      | inr no_binding ↦
          elim (Bool-cases (type == type_relay_register || type == type_relay_data)) [
            | inl relayed ↦ rw (no_binding, relayed) (handed p.relay (take max_frame_len datagram))
            | inr not_relayed ↦ elim (Bool-cases (type == type_probe_reply)) [
              | inl reply ↦ rw (no_binding, not_relayed, reply) (taken payload)
              | inr other ↦ rw (no_binding, not_relayed, other) (refl, refl)
            ]
          ]
    ]

module _ (c : ℕ) (call : Call) (p : Prober) (h : IsAt c call p) where
  abbrev following : Signal → Call
  following signal = record call { phase = advance (ltb 0 (p.closes c)) call.phase signal }

  -- Its own step is that of its phase, and sends what the phase sends.
  own-IsAt :
      (signal : Signal)
      → ((step_call c signal p).0 ≡ probe_of call call.phase signal)
        × IsAt c (following signal) (step_call c signal p).1
  unfolding step_call
  own-IsAt signal =
      let phase = advance (ltb 0 (p.closes c)) call.phase signal in
      let itself : (c == c) ≡ true = ground arith in
      elim (Bool-cases (is_returned phase && not (is_returned call.phase))) [
        | inl returns ↦ rw (h.its, returns) (refl, record { its = rw itself refl; known = h.known })
        | inr stays ↦ rw (h.its, stays) (refl, record { its = rw itself refl; known = h.known })
      ]

  another-IsAt : (d : ℕ) (signal : Signal) → (c == d) ≡ false → IsAt c call (step_call d signal p).1
  unfolding step_call
  another-IsAt d signal other = found (p.calls d)
    where
      found : (o : Option Call) → IsAt c call (step_found d o signal p).1
      found none = h
      found (some k) =
          let phase = advance (ltb 0 (p.closes d)) k.phase signal in
          let apart : (d == c) ≡ false = ground arith in
          elim (Bool-cases (is_returned phase && not (is_returned k.phase))) [
            | inl returns ↦ rw returns (record { its = rw apart h.its; known = h.known })
            | inr stays ↦ rw stays (record { its = rw apart h.its; known = h.known })
          ]

  begins-IsAt : (target : AddrPort) (nonce : List ℕ) → IsAt c call (begin_call target nonce p)
  unfolding begin_call
  begins-IsAt target nonce =
      let l = h.known in
      let apart : (p.fresh == c) ≡ false = ground arith in
      elim (Bool-cases (is_target target)) [
        | inl good ↦ rw good (record { its = rw apart h.its; known = omega (arith, l) })
        | inr bad ↦ rw bad (record { its = rw apart h.its; known = omega (arith, l) })
      ]

-- What the moves make of a call is what some signals make of it.
record IsRun (c : ℕ) (call : Call) (sends : List Datagram) (p : Prober) : Type 0 where
  signals : List (Bool × Signal)
  sent : sends ≡ (run_call call signals).0
  at_phase : IsAt c (record call { phase = (run_call call signals).1 }) p

run_moves-IsRun :
    (c : ℕ) (call : Call) (moves : List Move) (p : Prober)
    → IsAt c call p
    → IsRun c call (run_moves c moves p).0 (run_moves c moves p).1
run_moves-IsRun c call [] p h = record { signals = []; sent = refl; at_phase = h }
run_moves-IsRun c call (own signal ∷ moves) p h =
    let (sends, after) = own-IsAt c call p h signal in
    let rest =
      run_moves-IsRun c (following c call p h signal) moves (step_call c signal p).1 after in
    record {
      signals = (ltb 0 (p.closes c), signal) ∷ rest.signals;
      sent =
          ap (λ ds. ds ++ (run_moves c moves (step_call c signal p).1).0) sends
          ∙ ap (λ ds. probe_of call call.phase signal ++ ds) rest.sent;
      at_phase = rest.at_phase;
    }
run_moves-IsRun c call (another d signal ∷ moves) p h =
    run_moves-IsRun c call moves (if is_own c d then p else (step_call d signal p).1)
      (of_other (Bool-cases (is_own c d)))
  where
    of_other :
        ((is_own c d ≡ true) ⊎ (is_own c d ≡ false))
        → IsAt c call (if is_own c d then p else (step_call d signal p).1)
    of_other (inl own_number) = rw own_number h
    of_other (inr other) = rw other (another-IsAt c call p h d signal other)
run_moves-IsRun c call (starts_call target nonce ∷ moves) p h =
    run_moves-IsRun c call moves (begin_call target nonce p) (begins-IsAt c call p h target nonce)
run_moves-IsRun c call (reads datagram from now ∷ moves) p h =
    let (calls, fresh) = receive-Same datagram from now p in
    run_moves-IsRun c call moves (receive datagram from now p).1
      (record { its = ap (λ m. m c) calls ∙ h.its; known = subst (λ n. c < n) (sym fresh) h.known })

pub record IsOver (c : ℕ) (p : Prober) : Type 0 where
  pub call : Call
  pub its : p.calls c ≡ some call
  pub over : is_returned call.phase ≡ true

begun-IsAt :
    (target : AddrPort) (nonce : List ℕ) (p : Prober)
    → is_target target ≡ true
    → IsAt p.fresh
        (record { target = target; nonce = nonce; phase = to_write 0 })
        (begin_call target nonce p)
unfolding begin_call
begun-IsAt target nonce p good =
    let itself : (p.fresh == p.fresh) ≡ true = ground arith in
    rw good (record { its = rw itself refl; known = omega arith })

over-phase :
    (a b is_sent : Bool) (phase : Phase)
    → is_returned (advance b (advance a phase (write_ends is_sent)) deadline_passed) ≡ true
unfolding advance
over-phase a b is_sent phase = ground arith

-- A call of `Reachable` with a valid target, among any other calls and datagrams, sends three probes
-- at most, all to its target with its nonce; and at any time it returns when the write ends that it
-- may be at, and then its deadline passes.
pub call-ends :
    (target : AddrPort) (nonce : List ℕ) (p : Prober) (moves : List Move) (is_sent : Bool)
    → is_target target ≡ true
    → let c = p.fresh in
      let ran = run_moves c moves (begin_call target nonce p) in
      (length ran.0 ≤ probe_retries)
      × All (λ d. d ≡ probe target nonce) ran.0
      × IsOver c (step_call c deadline_passed (step_call c (write_ends is_sent) ran.1).1).1
call-ends target nonce p moves is_sent good =
    let c = p.fresh in
    let call : Call = record { target = target; nonce = nonce; phase = to_write 0 } in
    let ran = run_moves c moves (begin_call target nonce p) in
    let run =
      run_moves-IsRun c call moves (begin_call target nonce p) (begun-IsAt target nonce p good) in
    let now = record call { phase = (run_call call run.signals).1 } in
    let written = (own-IsAt c now ran.1 run.at_phase (write_ends is_sent)).1 in
    let p' = (step_call c (write_ends is_sent) ran.1).1 in
    let last =
      (own-IsAt c (following c now ran.1 run.at_phase (write_ends is_sent)) p' written
        deadline_passed).1 in
    (
      subst (λ ds. length ds ≤ probe_retries) (sym run.sent)
          (run_call-sends call run.signals (omega arith)),
      subst (All (λ d. d ≡ probe target nonce)) (sym run.sent) (run_call-probe call run.signals),
      record {
        call = _;
        its = last.its;
        over =
            over-phase (ltb 0 (ran.1.closes c)) (ltb 0 (p'.closes c)) is_sent
              (run_call call run.signals).1;
      },
    )
