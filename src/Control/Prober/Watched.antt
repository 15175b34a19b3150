-- ===== src/Control/Prober/Watched.antt =====
-- What the steps of internal/prober/prober.go keep of its waiters, channels and calls.
use mesh2mesh.Base.{
  text_eq, text_eq_iff, ◌==◌, if◌then◌else◌, ==_iff, Bool-cases, clash, ℕ, ◌+◌, ◌<◌, ◌≡◌, refl, sym,
  ap, ◌∙◌, subst, inl, inr, Bool, true, false, Option, none, some, List, ◌∷◌, arith,
}
use mesh2mesh.Control.Netip.{AddrPort}
use mesh2mesh.Control.Prober.{Waiter, Phase, returned, Call, is_returned}
use mesh2mesh.Control.Prober.Replies.{
  Happening, called, heard, IsReply, IsAnswered, answered_now, answered_before, IsAwaited,
  IsWatched, updated, deleted,
}
use mesh2mesh.Control.Registry.Rows.{null_some, same_row}
use mesh2mesh.Control.Relay.{update}
use mathlib.Core.List.{Memᴰ}

module _ (waiters : List ℕ → Option Waiter) (closes : ℕ → ℕ) (calls : ℕ → Option Call) (fresh : ℕ)
    (history : List Happening) (h : IsWatched waiters closes calls fresh history) where
  pub more-IsWatched : (e : Happening) → IsWatched waiters closes calls fresh (e ∷ history)
  more-IsWatched e = record {
    awaited = h.awaited;
    noted = λ c call f. Memᴰ.tail (h.noted c call f);
    replied = λ c call f l. answered_before e history (h.replied c call f l);
    reached = h.reached;
    once = h.once;
    unused = h.unused;
  }

  -- A new call, and the maps with its waiter or without.
  module _ (call : Call) where
    abbrev pub with_call : ℕ → Option Call
    with_call = update (◌==◌) fresh (some call) calls

    kept-call : (c : ℕ) (k : Call) → calls c ≡ some k → with_call c ≡ some k
    kept-call c k e = elim (Bool-cases (fresh == c)) [
      | inl same ↦
          let there = (h.unused fresh (omega arith)).0 in
          absurd (null_some (sym there ∙ ap calls ((==_iff fresh c).0 same) ∙ e))
      | inr other ↦ rw other e
    ]

    pub kept-IsAwaited :
        (n : List ℕ) (w : Waiter) → IsAwaited closes calls n w → IsAwaited closes with_call n w
    kept-IsAwaited n w a = record {
      call = a.call;
      its = kept-call w.replied a.call a.its;
      same_target = a.same_target;
      same_nonce = a.same_nonce;
      unclosed = a.unclosed;
      running = a.running;
    }

    pub new_call-IsWatched :
        (waiters' : List ℕ → Option Waiter)
        → ((n : List ℕ) (w : Waiter) → waiters' n ≡ some w → IsAwaited closes with_call n w)
        → ((e : Bool) → call.phase ≡ returned true e → ⊥)
        → IsWatched waiters' closes with_call
            (fresh + 1)
            (called fresh call.target call.nonce ∷ history)
    new_call-IsWatched waiters' awaited not_yet = record {
      awaited = awaited;
      noted = λ c k e. elim (updated (◌==◌) fresh c call k calls e) [
        | inl (same, path) ↦ Memᴰ.head (
            ap (λ x. called x k.target k.nonce) (sym ((==_iff fresh c).0 same))
            ∙ ap (λ x. called fresh x.target x.nonce) (sym path))
        | inr (other, old) ↦ Memᴰ.tail (h.noted c k old)
      ];
      replied = λ c k e l. elim (updated (◌==◌) fresh c call k calls e) [
        | inl (same, path) ↦
            let never = (h.unused fresh (omega arith)).1 in
            let here = ap closes ((==_iff fresh c).0 same) in absurd (omega (arith, never, here, l))
        | inr (other, old) ↦ answered_before _ history (h.replied c k old l)
      ];
      reached = λ c k e f p. elim (updated (◌==◌) fresh c call k calls f) [
        | inl (same, path) ↦ absurd (not_yet e (ap (λ x. x.phase) path ∙ p))
        | inr (other, old) ↦ h.reached c k e old p
      ];
      once = h.once;
      unused = λ c l.
          let (none_there, never) = h.unused c (omega (arith, l)) in
          (ground (arith, none_there), never);
    }

  -- A call's step, given what then waits.
  module _ (c : ℕ) (call : Call) (its : calls c ≡ some call) (phase : Phase) where
    abbrev advanced : ℕ → Option Call
    advanced = update (◌==◌) c (some (record call { phase = phase })) calls

    pub advanced-IsWatched :
        (waiters' : List ℕ → Option Waiter)
        → ((n : List ℕ) (w : Waiter) → waiters' n ≡ some w → IsAwaited closes advanced n w)
        → ((e : Bool) → phase ≡ returned true e → 0 < closes c)
        → IsWatched waiters' closes advanced fresh history
    advanced-IsWatched waiters' awaited closed = record {
      awaited = awaited;
      noted = λ d k e. elim (updated (◌==◌) c d (record call { phase = phase }) k calls e) [
        | inl (same, path) ↦
            let here = (==_iff c d).0 same in
            subst (λ x. Memᴰ (called x k.target k.nonce) history) here
              (subst (λ x. Memᴰ (called c x.target x.nonce) history) path (h.noted c call its))
        | inr (other, old) ↦ h.noted d k old
      ];
      replied = λ d k e l. elim (updated (◌==◌) c d (record call { phase = phase }) k calls e) [
        | inl (same, path) ↦
            let here = (==_iff c d).0 same in
            subst (λ x. IsAnswered x k.target k.nonce history) here
              (subst (λ x. IsAnswered c x.target x.nonce history) path
                (h.replied c call its (subst (λ x. 0 < closes x) (sym here) l)))
        | inr (other, old) ↦ h.replied d k old l
      ];
      reached = λ d k e f p. elim (updated (◌==◌) c d (record call { phase = phase }) k calls f) [
        | inl (same, path) ↦
            subst (λ x. 0 < closes x) ((==_iff c d).0 same) (closed e (ap (λ x. x.phase) path ∙ p))
        | inr (other, old) ↦ h.reached d k e old p
      ];
      once = h.once;
      unused = λ d l.
          let (none_there, never) = h.unused d l in
          let other : (c == d) ≡ false = elim (Bool-cases (c == d)) [
            | inl same ↦
                absurd (null_some (sym none_there ∙ ap calls (sym ((==_iff c d).0 same)) ∙ its))
            | inr differs ↦ differs
          ] in
          (rw other none_there, never);
    }

    -- Where a waiter's call is another one, or this one still runs.
    pub advanced-IsAwaited :
        (n : List ℕ) (w : Waiter)
        → IsAwaited closes calls n w
        → (c ≡ w.replied → is_returned phase ≡ false)
        → IsAwaited closes advanced n w
    advanced-IsAwaited n w a runs = elim (Bool-cases (c == w.replied)) [
      | inl same ↦
          let here = (==_iff c w.replied).0 same in
          let path : call ≡ a.call = same_row (sym its ∙ ap calls here ∙ a.its) in
          record {
            call = record call { phase = phase };
            its = rw same refl;
            same_target = ap (λ x. x.target) path ∙ a.same_target;
            same_nonce = ap (λ x. x.nonce) path ∙ a.same_nonce;
            unclosed = a.unclosed;
            running = runs here;
          }
      | inr other ↦ record {
        call = a.call;
        its = rw other a.its;
        same_target = a.same_target;
        same_nonce = a.same_nonce;
        unclosed = a.unclosed;
        running = a.running;
      }
    ]

  -- A reply that a call waits for.
  module _ (w : Waiter) (nonce datagram : List ℕ) (from : AddrPort) (waits : waiters nonce ≡ some w)
      (reply : IsReply w.target nonce datagram from) where
    abbrev closed_once : ℕ → ℕ
    closed_once d = if w.replied == d then closes d + 1 else closes d

    pub reply-IsWatched :
        IsWatched
          (update text_eq nonce none waiters)
          closed_once
          calls
          fresh
          (heard datagram from ∷ history)
    reply-IsWatched =
        let a = h.awaited nonce w waits in
        record {
          awaited = λ m v e.
              let (differs, old) = deleted text_eq nonce m v waiters e in
              let b = h.awaited m v old in
              let other : (w.replied == v.replied) ≡ false =
                elim (Bool-cases (w.replied == v.replied)) [
                  | inl same ↦
                      let path : a.call ≡ b.call =
                        same_row
                          (sym a.its ∙ ap calls ((==_iff w.replied v.replied).0 same) ∙ b.its) in
                      absurd (
                        clash differs (
                          (text_eq_iff nonce m).1
                            (sym a.same_nonce ∙ ap (λ x. x.nonce) path ∙ b.same_nonce)))
                  | inr distinct ↦ distinct
                ] in
              record {
                call = b.call;
                its = b.its;
                same_target = b.same_target;
                same_nonce = b.same_nonce;
                unclosed = rw other b.unclosed;
                running = b.running;
              };
          noted = λ c call e. Memᴰ.tail (h.noted c call e);
          replied = λ c call e l. elim (Bool-cases (w.replied == c)) [
            | inl same ↦
                let path : a.call ≡ call =
                  same_row (sym a.its ∙ ap calls ((==_iff w.replied c).0 same) ∙ e) in
                let target : w.target ≡ call.target = sym a.same_target ∙ ap (λ x. x.target) path in
                let its_nonce : nonce ≡ call.nonce = sym a.same_nonce ∙ ap (λ x. x.nonce) path in
                answered_now datagram from history
                  (subst (λ x. IsReply x call.nonce datagram from) target
                    (subst (λ x. IsReply w.target x datagram from) its_nonce reply))
                  (h.noted c call e)
            | inr other ↦ answered_before _ history (h.replied c call e (rw other at l))
          ];
          reached = λ c call e f p. let l = h.reached c call e f p in ground arith;
          once = λ c. elim (Bool-cases (w.replied == c)) [
            | inl same ↦
                let none_yet = a.unclosed in
                let here = ap closes ((==_iff w.replied c).0 same) in
                rw same (omega (arith, none_yet, here))
            | inr other ↦ rw other (h.once c)
          ];
          unused = λ c l.
              let (none_there, never) = h.unused c l in
              let other : (w.replied == c) ≡ false = elim (Bool-cases (w.replied == c)) [
                | inl same ↦ absurd (
                    null_some
                      (sym none_there ∙ ap calls (sym ((==_iff w.replied c).0 same)) ∙ a.its))
                | inr differs ↦ differs
              ] in
              (none_there, rw other never);
        }
