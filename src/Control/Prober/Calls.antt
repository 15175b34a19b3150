-- ===== src/Control/Prober/Calls.antt =====
-- The phases of a call of `Reachable` in internal/prober/prober.go, and what it sends.
use mesh2mesh.Base.{
  length, length-append, All, All-append, ℕ, ◌+◌, ◌-◌, ◌≤◌, ◌<◌, ◌≡◌, refl, Bool, true, false, List,
  [], ◌∷◌, ◌++◌, arith,
}
use mesh2mesh.Control.Netip.{AddrPort}
use mesh2mesh.Control.Prober.{
  Phase, to_write, retrying, last_wait, returned, Call, probe_retries, Signal, write_ends,
  reply_seen, retry_elapsed, deadline_passed, advance, probe_of,
}
use mesh2mesh.Control.Relay.{Datagram}
use mesh2mesh.Control.Wire.{type_probe, encode}

abbrev sends_left : Phase → ℕ
sends_left (to_write k) = probe_retries - k
sends_left (retrying k) = probe_retries - (k + 1)
sends_left last_wait = 0
sends_left (returned reachable is_error) = 0

-- The attempts of a call are numbered from 0.
abbrev IsAttempt : Phase → Type 0
IsAttempt (to_write k) = k < probe_retries
IsAttempt (retrying k) = k < probe_retries
IsAttempt last_wait = Unit
IsAttempt (returned reachable is_error) = Unit

-- The steps of one call, among which others may come: the datagrams that it sends, and its phase.
-- A channel that is closed stays so.
abbrev pub run_call : Call → List (Bool × Signal) → List Datagram × Phase
run_call call [] = ([], call.phase)
run_call call ((is_closed, signal) ∷ rest) =
    let phase = advance is_closed call.phase signal in
    let (sends, last) = run_call (record call { phase = phase }) rest in
    (probe_of call call.phase signal ++ sends, last)

advance-IsAttempt :
    (is_closed : Bool) (phase : Phase) (signal : Signal)
    → IsAttempt phase
    → IsAttempt (advance is_closed phase signal)
unfolding advance
advance-IsAttempt is_closed phase signal h = ground arith

advance-sends :
    (is_closed : Bool) (call : Call) (signal : Signal)
    → IsAttempt call.phase
    → length (probe_of call call.phase signal) + sends_left (advance is_closed call.phase signal)
      ≤ sends_left call.phase
unfolding advance encode
advance-sends is_closed call signal h = ground arith

pub run_call-sends :
    (call : Call) (signals : List (Bool × Signal))
    → IsAttempt call.phase
    → length (run_call call signals).0 ≤ sends_left call.phase
run_call-sends call [] h = omega arith
run_call-sends call ((is_closed, signal) ∷ rest) h =
    let phase = advance is_closed call.phase signal in
    let later =
      run_call-sends (record call { phase = phase }) rest
        (advance-IsAttempt is_closed call.phase signal h) in
    let first = advance-sends is_closed call signal h in
    let sends = (run_call (record call { phase = phase }) rest).0 in
    omega (arith, later, first, length-append (probe_of call call.phase signal) sends)

abbrev pub probe : AddrPort → List ℕ → Datagram
probe target nonce = record { frame = encode [] type_probe nonce; to = target }

probe_of-probe :
    (call : Call) (phase : Phase) (signal : Signal)
    → All (λ d. d ≡ probe call.target call.nonce) (probe_of call phase signal)
probe_of-probe call (to_write k) (write_ends true) = (refl, tt)
probe_of-probe call (to_write k) (write_ends false) = tt
probe_of-probe call (to_write k) reply_seen = tt
probe_of-probe call (to_write k) retry_elapsed = tt
probe_of-probe call (to_write k) deadline_passed = tt
probe_of-probe call (retrying k) signal = tt
probe_of-probe call last_wait signal = tt
probe_of-probe call (returned reachable is_error) signal = tt

pub run_call-probe :
    (call : Call) (signals : List (Bool × Signal))
    → All (λ d. d ≡ probe call.target call.nonce) (run_call call signals).0
run_call-probe call [] = tt
run_call-probe call ((is_closed, signal) ∷ rest) =
    let phase = advance is_closed call.phase signal in
    let sends = (run_call (record call { phase = phase }) rest).0 in
    All-append (λ d. d ≡ probe call.target call.nonce) (probe_of call call.phase signal) sends
      (probe_of-probe call call.phase signal) (run_call-probe (record call { phase = phase }) rest)
