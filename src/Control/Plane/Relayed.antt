-- ===== src/Control/Plane/Relayed.antt =====
-- The relay behind the prober of internal/prober/prober.go, through its steps.
use mesh2mesh.Base.{
  length, take, ltb, ◌==◌, Bool-cases, ℕ, ◌≡◌, refl, sym, ap, ◌∙◌, inl, inr, false, not, ◌&&◌, ◌||◌,
  Option, none, some, List, arith,
}
use mesh2mesh.Control.Netip.{AddrPort, addr_port_eq}
use mesh2mesh.Control.Prober.{
  Waiter, Call, Prober, is_target, begin_call, Signal, advance, is_returned, step_found, step_call,
  to_relay, answer_waiter, take_reply, dispatch, unmapped, receive,
}
use mesh2mesh.Control.Relay.{Relay, handle_decoded, handle_frame}
use mesh2mesh.Control.Wire.{
  type_probe_reply, type_binding_request, type_relay_register, type_relay_data, nonce_len,
  max_frame_len, Decoded, decoded, malformed, decode,
}

-- The relay of the prober is the one that `receives` describes.
pub receive-relay :
    (datagram : List ℕ) (from : AddrPort) (now : ℕ) (p : Prober) (r : Relay)
    → p.relay ≡ some r
    → (receive datagram from now p).1.relay
      ≡ some (handle_frame (take max_frame_len datagram) (unmapped from) now r).1
unfolding receive handle_frame
receive-relay datagram from now p r e = of_frame (decode (take max_frame_len datagram)) refl
  where
    taken : (payload : List ℕ) → (take_reply payload (unmapped from) p).relay ≡ some r
    taken payload = elim (Bool-cases (ltb (length payload) nonce_len)) [
      | inl short ↦ rw short e
      | inr long ↦ rw long (waited (p.waiters (take nonce_len payload)))
    ]
      where
        waited :
            (o : Option Waiter)
            → (answer_waiter o (take nonce_len payload) (unmapped from) p).relay ≡ some r
        waited none = e
        waited (some w) = elim (Bool-cases (addr_port_eq (unmapped from) w.target)) [
          | inl there ↦ rw there e
          | inr elsewhere ↦ rw elsewhere e
        ]

    frame : List ℕ
    frame = take max_frame_len datagram

    handed :
        (to_relay p.relay frame (unmapped from) now p).1.relay
        ≡ some (handle_frame frame (unmapped from) now r).1
    handed = rw e refl

    left :
        (d : Decoded)
        → decode frame ≡ d
        → (handle_decoded d frame (unmapped from) now r).1 ≡ r
        → some (handle_frame frame (unmapped from) now r).1 ≡ some r
    left d f same = ap (λ x. some (handle_decoded x frame (unmapped from) now r).1) f ∙ ap some same

    of_frame :
        (d : Decoded)
        → decode frame ≡ d
        → (dispatch d frame (unmapped from) now p).1.relay
          ≡ some (handle_frame frame (unmapped from) now r).1
    of_frame (malformed m) f = e ∙ sym (left (malformed m) f refl)
    of_frame (decoded type payload) f =
        elim (Bool-cases (type == type_relay_register || type == type_relay_data)) [
          | inl relayed ↦
              let other : (type == type_binding_request) ≡ false = ground arith in
              rw (other, relayed) handed
          | inr not_relayed ↦
              let n : (type == type_relay_register) ≡ false = ground arith in
              let m : (type == type_relay_data) ≡ false = ground arith in
              let same = left (decoded type payload) f (rw (n, m) refl) in
              elim (Bool-cases (type == type_binding_request)) [
                | inl binding ↦ rw binding (e ∙ sym same)
                | inr no_binding ↦ elim (Bool-cases (type == type_probe_reply)) [
                  | inl reply ↦ rw (no_binding, not_relayed, reply) (taken payload ∙ sym same)
                  | inr other ↦ rw (no_binding, not_relayed, other) (e ∙ sym same)
                ]
              ]
        ]

pub step_call-relay :
    (c : ℕ) (signal : Signal) (p : Prober) → (step_call c signal p).1.relay ≡ p.relay
unfolding step_call
step_call-relay c signal p = found (p.calls c)
  where
    found : (o : Option Call) → (step_found c o signal p).1.relay ≡ p.relay
    found none = refl
    found (some call) =
        let phase = advance (ltb 0 (p.closes c)) call.phase signal in
        elim (Bool-cases (is_returned phase && not (is_returned call.phase))) [
          | inl returns ↦ rw returns refl
          | inr stays ↦ rw stays refl
        ]

pub begin_call-relay :
    (target : AddrPort) (nonce : List ℕ) (p : Prober) → (begin_call target nonce p).relay ≡ p.relay
unfolding begin_call
begin_call-relay target nonce p = elim (Bool-cases (is_target target)) [
  | inl good ↦ rw good refl
  | inr bad ↦ rw bad refl
]
