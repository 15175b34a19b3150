-- ===== src/Control/Prober.antt =====
-- internal/prober/prober.go: the socket that probes machines, tells them their addresses and takes
-- the relay's frames. A call of `Reachable` and its `replied` channel share a number; the calls and
-- the read loop take their steps in any order.
pub mod Replies
pub mod Watched
pub mod Reach
pub mod Bounds
pub mod Binding
pub mod Calls
pub mod Ends
use mesh2mesh.Base.{
  length, take, text_eq, ltb, ◌==◌, if◌then◌else◌, ℕ, ◌+◌, Bool, true, false, not, ◌&&◌, ◌||◌,
  Option, none, some, List, [], ◌∷◌,
}
use mesh2mesh.Control.Netip.{AddrPort, addr_port_eq, is_valid, unmap}
use mesh2mesh.Control.Relay.{update, Relay, Datagram, handle_frame}
use mesh2mesh.Control.Wire.{
  type_probe, type_probe_reply, type_binding_request, type_binding_response, type_relay_register,
  type_relay_data, nonce_len, binding_len, max_frame_len, encode, Decoded, decoded, malformed,
  decode, append_addr_port,
}

-- `waiter`
pub record Waiter : Type 0 where
  pub target : AddrPort
  pub replied : ℕ

-- Where a call stands: before the write of an attempt, in its `select`, in the last `select`, or
-- returned with whether it returned an error.
pub data Phase : Type 0 where
  to_write : (attempt : ℕ) → Phase
  retrying : (attempt : ℕ) → Phase
  last_wait : Phase
  returned : (reachable is_error : Bool) → Phase

-- `Reachable(ctx, target)`, after it drew its nonce
pub record Call : Type 0 where
  pub target : AddrPort
  pub nonce : List ℕ
  pub phase : Phase

-- `closes` counts how often a channel was closed: Go panics at the second time. `fresh` is the next
-- number of a call.
pub record Prober : Type 0 where
  pub waiters : List ℕ → Option Waiter
  pub closes : ℕ → ℕ
  pub calls : ℕ → Option Call
  pub fresh : ℕ
  pub relay : Option Relay

abbrev pub probe_retries : ℕ
probe_retries = 3

-- `Open`
abbrev pub new_prober : Prober
new_prober = record {
  waiters = λ n. none;
  closes = λ c. 0;
  calls = λ c. none;
  fresh = 0;
  relay = none;
}

-- `SetRelay(r)`
abbrev pub set_relay : Relay → Prober → Prober
set_relay relay p = record p { relay = some relay }

abbrev set_call : ℕ → Call → Prober → Prober
set_call c call p = record p { calls = update (◌==◌) c (some call) p.calls }

abbrev set_waiter : List ℕ → Option Waiter → Prober → Prober
set_waiter nonce w p = record p { waiters = update text_eq nonce w p.waiters }

-- The start of `Reachable(ctx, target)`, with the nonce that it draws
abbrev pub is_target : AddrPort → Bool
is_target target = is_valid target && not (target.port == 0)

unfoldable pub begin_call : AddrPort → (nonce : List ℕ) → Prober → Prober
begin_call target nonce p =
    let started = if is_target target then to_write 0 else returned false true in
    let p' =
      record (set_call p.fresh (record { target = target; nonce = nonce; phase = started }) p) {
        fresh = p.fresh + 1;
      } in
    if is_target target
    then set_waiter nonce (some (record { target = target; replied = p.fresh })) p'
    else p'

-- What a call meets: how its write ends, and which case of its `select` is ready.
pub data Signal : Type 0 where
  write_ends : (is_sent : Bool) → Signal
  reply_seen retry_elapsed deadline_passed : Signal

-- The phase after a signal, with whether the channel is closed; a signal for which nothing waits
-- changes nothing.
pub advance : (is_closed : Bool) → Phase → Signal → Phase
advance is_closed (to_write k) (write_ends is_sent) =
    if not is_sent && k + 1 == probe_retries then returned false true else retrying k
advance is_closed (retrying k) reply_seen = if is_closed then returned true false else retrying k
advance is_closed (retrying k) retry_elapsed =
    if k + 1 == probe_retries then last_wait else to_write (k + 1)
advance is_closed (retrying k) deadline_passed = returned false false
advance is_closed last_wait reply_seen = if is_closed then returned true false else last_wait
advance is_closed last_wait deadline_passed = returned false false
advance is_closed phase signal = phase

abbrev pub is_returned : Phase → Bool
is_returned (returned reachable is_error) = true
is_returned _ = false

-- The probe that a write sends.
abbrev pub probe_of : Call → Phase → Signal → List Datagram
probe_of call (to_write k) (write_ends true) =
    record { frame = encode [] type_probe call.nonce; to = call.target } ∷ []
probe_of call phase signal = []

-- A step of a call; when it returns, it deletes what waits for its nonce.
abbrev step_of : ℕ → Call → Signal → Prober → List Datagram × Prober
step_of c call signal p =
    let phase = advance (ltb 0 (p.closes c)) call.phase signal in
    let p' = set_call c (record call { phase = phase }) p in
    (
      probe_of call call.phase signal,
      if is_returned phase && not (is_returned call.phase)
          then set_waiter call.nonce none p'
          else p',
    )

abbrev pub step_found : ℕ → Option Call → Signal → Prober → List Datagram × Prober
step_found c none signal p = ([], p)
step_found c (some call) signal p = step_of c call signal p

unfoldable pub step_call : ℕ → Signal → Prober → List Datagram × Prober
unfolding advance
step_call c signal p = step_found c (p.calls c) signal p

-- `answerBinding(payload, src)`
unfoldable pub answer_binding : List ℕ → AddrPort → List Datagram
answer_binding payload src =
    if ltb (length payload) binding_len
    then []
    else record {
      frame = append_addr_port (encode [] type_binding_response (take nonce_len payload)) src;
      to = src;
    }
      ∷ []

abbrev pub to_relay : Option Relay → List ℕ → AddrPort → ℕ → Prober → List Datagram × Prober
to_relay none frame src now p = ([], p)
to_relay (some relay) frame src now p =
    let (sends, relay') = handle_frame frame src now relay in
    (sends, record p { relay = some relay' })

-- `close(w.replied)`
abbrev close : ℕ → Prober → Prober
close c p = record p { closes = λ d. if c == d then p.closes d + 1 else p.closes d }

abbrev pub answer_waiter : Option Waiter → (nonce : List ℕ) → AddrPort → Prober → Prober
answer_waiter none nonce src p = p
answer_waiter (some w) nonce src p =
    if not (addr_port_eq src w.target) then p else close w.replied (set_waiter nonce none p)

abbrev pub take_reply : List ℕ → AddrPort → Prober → Prober
take_reply payload src p =
    if ltb (length payload) nonce_len
    then p
    else answer_waiter (p.waiters (take nonce_len payload)) (take nonce_len payload) src p

abbrev pub dispatch : Decoded → List ℕ → AddrPort → ℕ → Prober → List Datagram × Prober
dispatch (malformed e) frame src now p = ([], p)
dispatch (decoded type payload) frame src now p =
    if type == type_binding_request
    then (answer_binding payload src, p)
    else if type == type_relay_register || type == type_relay_data
    then to_relay p.relay frame src now p
    else if type == type_probe_reply
    then ([], take_reply payload src p)
    else ([], p)

abbrev pub unmapped : AddrPort → AddrPort
unmapped a = record { ip = unmap a.ip; port = a.port }

-- One round of `readLoop`, which reads as much of a datagram as its buffer holds.
unfoldable pub receive : List ℕ → AddrPort → (now : ℕ) → Prober → List Datagram × Prober
unfolding decode answer_binding
receive datagram from now p =
    let frame = take max_frame_len datagram in dispatch (decode frame) frame (unmapped from) now p
