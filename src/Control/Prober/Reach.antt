-- ===== src/Control/Prober/Reach.antt =====
-- What internal/prober/prober.go comes to by its calls, their steps and the datagrams it reads.
use mesh2mesh.Base.{
  length, take, text_eq, text_eq_iff, ltb, ◌==◌, ==_iff, Bool-cases, clash, ℕ, ◌<◌, ◌≡◌, refl, sym,
  ap, ◌∙◌, subst, inl, inr, Bool, true, false, not, ◌&&◌, ◌||◌, Option, none, some, List, [], ◌∷◌,
  arith,
}
use mesh2mesh.Control.Netip.{AddrPort, addr_port_eq, addr_port_eq_iff}
use mesh2mesh.Control.Prober.{
  Waiter, Phase, to_write, returned, Call, Prober, new_prober, is_target, begin_call, Signal,
  advance, is_returned, step_found, step_call, to_relay, answer_waiter, take_reply, dispatch,
  unmapped, receive,
}
use mesh2mesh.Control.Prober.Replies.{
  Happening, called, heard, IsAwaited, IsWatched, updated, deleted,
}
use mesh2mesh.Control.Prober.Watched.{
  more-IsWatched, with_call, kept-IsAwaited, new_call-IsWatched, advanced-IsWatched,
  advanced-IsAwaited, reply-IsWatched,
}
use mesh2mesh.Control.Registry.Rows.{null_some, same_row}
use mesh2mesh.Control.Relay.{update, Relay}
use mesh2mesh.Control.Wire.{
  type_probe_reply, type_binding_request, type_relay_register, type_relay_data, nonce_len,
  max_frame_len, Decoded, decoded, malformed, decode,
}

abbrev pub IsProber : Prober → List Happening → Type 0
IsProber p history = IsWatched p.waiters p.closes p.calls p.fresh history

pub new_prober-IsProber : IsProber new_prober []
new_prober-IsProber = record {
  awaited = λ n w e. absurd (null_some e);
  noted = λ c call e. absurd (null_some e);
  replied = λ c call e l. absurd (null_some e);
  reached = λ c call e f p. absurd (null_some f);
  once = λ c. omega arith;
  unused = λ c l. (refl, refl);
}

fails_never_true : {a e : Bool} → returned false a ≡ returned true e → ⊥
fails_never_true e = cc

starts_never_true : {k : ℕ} {e : Bool} → to_write k ≡ returned true e → ⊥
starts_never_true e = cc

pub begin_call-IsProber :
    (target : AddrPort) (nonce : List ℕ) (p : Prober) (history : List Happening)
    → IsProber p history
    → IsProber (begin_call target nonce p) (called p.fresh target nonce ∷ history)
unfolding begin_call
begin_call-IsProber target nonce p history h = elim (Bool-cases (is_target target)) [
  | inr bad ↦
      let call : Call = record { target = target; nonce = nonce; phase = returned false true } in
      rw bad (
        new_call-IsWatched p.waiters p.closes p.calls p.fresh history h call p.waiters
          (λ n w e.
            kept-IsAwaited p.waiters p.closes p.calls p.fresh history h call n w (h.awaited n w e))
          (λ e q. fails_never_true q))
  | inl good ↦
      let call : Call = record { target = target; nonce = nonce; phase = to_write 0 } in
      let w : Waiter = record { target = target; replied = p.fresh } in
      let own : (p.fresh == p.fresh) ≡ true = ground arith in
      rw good (
        new_call-IsWatched p.waiters p.closes p.calls p.fresh history h call
          (update text_eq nonce (some w) p.waiters)
          (λ n v e. elim (updated text_eq nonce n w v p.waiters e) [
            | inl (same, path) ↦
                subst
                  (IsAwaited p.closes (with_call p.waiters p.closes p.calls p.fresh history h call)
                    n)
                  path
                  (record {
                    call = call;
                    its = rw own refl;
                    same_target = refl;
                    same_nonce = (text_eq_iff nonce n).0 same;
                    unclosed = (h.unused p.fresh (omega arith)).1;
                    running = refl;
                  })
            | inr (other, old) ↦
                kept-IsAwaited p.waiters p.closes p.calls p.fresh history h call n v
                  (h.awaited n v old)
          ])
          (λ e q. starts_never_true q))
]

-- A call returns that its target is reachable only where its channel is closed.
advance-closed :
    (is_closed : Bool) (phase : Phase) (signal : Signal) (e : Bool)
    → is_returned phase ≡ false
    → advance is_closed phase signal ≡ returned true e
    → is_closed ≡ true
unfolding advance
advance-closed is_closed phase signal e r h = ground arith

-- A call that has returned stays as it is.
advance-returned :
    (is_closed : Bool) (phase : Phase) (signal : Signal)
    → is_returned phase ≡ true
    → advance is_closed phase signal ≡ phase
unfolding advance
advance-returned is_closed phase signal r = ground arith

pub step_call-IsProber :
    (c : ℕ) (signal : Signal) (p : Prober) (history : List Happening)
    → IsProber p history
    → IsProber (step_call c signal p).1 history
unfolding step_call
step_call-IsProber c signal p history h = stepped (p.calls c) refl
  where
    stepped : (o : Option Call) → p.calls c ≡ o → IsProber (step_found c o signal p).1 history
    stepped none its = h
    stepped (some call) its =
        let phase = advance (ltb 0 (p.closes c)) call.phase signal in
        let closed : (e : Bool) → phase ≡ returned true e → 0 < p.closes c = λ e q.
          elim (Bool-cases (is_returned call.phase)) [
            | inl over ↦
                h.reached c call e its
                  (sym (advance-returned (ltb 0 (p.closes c)) call.phase signal over) ∙ q)
            | inr open_call ↦
                let l = advance-closed (ltb 0 (p.closes c)) call.phase signal e open_call q in
                ground arith
          ] in
        elim (Bool-cases (is_returned phase && not (is_returned call.phase))) [
          | inl returns ↦ rw returns (
              advanced-IsWatched p.waiters p.closes p.calls p.fresh history h c call its phase
                (update text_eq call.nonce none p.waiters)
                (λ n w e.
                  let (differs, old) = deleted text_eq call.nonce n w p.waiters e in
                  let a = h.awaited n w old in
                  advanced-IsAwaited p.waiters p.closes p.calls p.fresh history h c call its phase n
                    w a
                    (λ same.
                      let path : call ≡ a.call = same_row (sym its ∙ ap p.calls same ∙ a.its) in
                      absurd (
                        clash differs
                          ((text_eq_iff call.nonce n).1 (ap (λ x. x.nonce) path ∙ a.same_nonce)))))
                closed)
          | inr stays ↦ rw stays (
              advanced-IsWatched p.waiters p.closes p.calls p.fresh history h c call its phase
                p.waiters
                (λ n w e.
                  let a = h.awaited n w e in
                  advanced-IsAwaited p.waiters p.closes p.calls p.fresh history h c call its phase n
                    w a
                    (λ same.
                      let path : call ≡ a.call = same_row (sym its ∙ ap p.calls same ∙ a.its) in
                      let still = ap (λ x. is_returned x.phase) path ∙ a.running in ground arith))
                closed)
        ]

module _ (p : Prober) (history : List Happening) (datagram : List ℕ) (from : AddrPort)
    (h : IsProber p history) where
  take_reply-IsProber :
      (payload : List ℕ)
      → decode (take max_frame_len datagram) ≡ decoded type_probe_reply payload
      → IsProber (take_reply payload (unmapped from) p) (heard datagram from ∷ history)
  take_reply-IsProber payload frame = elim (Bool-cases (ltb (length payload) nonce_len)) [
    | inl short ↦
        rw short (more-IsWatched p.waiters p.closes p.calls p.fresh history h (heard datagram from))
    | inr long ↦ rw long (of_waiter (p.waiters (take nonce_len payload)) refl long)
  ]
    where
      of_waiter :
          (o : Option Waiter)
          → p.waiters (take nonce_len payload) ≡ o
          → ltb (length payload) nonce_len ≡ false
          → IsProber
              (answer_waiter o (take nonce_len payload) (unmapped from) p)
              (heard datagram from ∷ history)
      of_waiter none e long =
          more-IsWatched p.waiters p.closes p.calls p.fresh history h (heard datagram from)
      of_waiter (some w) e long = elim (Bool-cases (addr_port_eq (unmapped from) w.target)) [
        | inr elsewhere ↦
            rw elsewhere
              (more-IsWatched p.waiters p.closes p.calls p.fresh history h (heard datagram from))
        | inl there ↦ rw there (
            reply-IsWatched p.waiters p.closes p.calls p.fresh history h w (take nonce_len payload)
              datagram from e
              (record {
                payload = payload;
                is_frame = frame;
                long = long;
                same_nonce = refl;
                same_source = (addr_port_eq_iff (unmapped from) w.target).0 there;
              }))
      ]

  to_relay-IsProber :
      (o : Option Relay) (frame : List ℕ) (now : ℕ)
      → IsProber (to_relay o frame (unmapped from) now p).1 (heard datagram from ∷ history)
  to_relay-IsProber none frame now =
      more-IsWatched p.waiters p.closes p.calls p.fresh history h (heard datagram from)
  to_relay-IsProber (some relay) frame now =
      more-IsWatched p.waiters p.closes p.calls p.fresh history h (heard datagram from)

  dispatch-IsProber :
      (d : Decoded) (now : ℕ)
      → decode (take max_frame_len datagram) ≡ d
      → IsProber
          (dispatch d (take max_frame_len datagram) (unmapped from) now p).1
          (heard datagram from ∷ history)
  dispatch-IsProber (malformed e) now frame =
      more-IsWatched p.waiters p.closes p.calls p.fresh history h (heard datagram from)
  dispatch-IsProber (decoded type payload) now frame =
      let more =
        more-IsWatched p.waiters p.closes p.calls p.fresh history h (heard datagram from) in
      elim (Bool-cases (type == type_binding_request)) [
        | inl binding ↦ rw binding more
        | inr no_binding ↦
            elim (Bool-cases (type == type_relay_register || type == type_relay_data)) [
              | inl relayed ↦
                  rw (no_binding, relayed)
                    (to_relay-IsProber p.relay (take max_frame_len datagram) now)
              | inr not_relayed ↦ elim (Bool-cases (type == type_probe_reply)) [
                | inr other ↦ rw (no_binding, not_relayed, other) more
                | inl reply ↦
                    rw (no_binding, not_relayed, reply)
                      (take_reply-IsProber payload (
                        subst (λ t. decode (take max_frame_len datagram) ≡ decoded t payload)
                          ((==_iff type type_probe_reply).0 reply) frame))
              ]
            ]
      ]

  pub receive-IsProber :
      (now : ℕ) → IsProber (receive datagram from now p).1 (heard datagram from ∷ history)
  unfolding receive
  receive-IsProber now = dispatch-IsProber (decode (take max_frame_len datagram)) now refl
