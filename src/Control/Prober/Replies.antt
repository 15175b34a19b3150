-- ===== src/Control/Prober/Replies.antt =====
-- Which calls and datagrams internal/prober/prober.go has seen, and what its maps and channels have
-- to do with them.
use mesh2mesh.Base.{
  length, take, ltb, ℕ, ◌≤◌, ◌<◌, ◌≡◌, ◌⊎◌, Bool, true, false, Option, none, some, List, ◌∷◌, arith,
}
use mesh2mesh.Control.Netip.{AddrPort}
use mesh2mesh.Control.Prober.{Waiter, returned, Call, is_returned, unmapped}
use mesh2mesh.Control.Relay.{update}
use mesh2mesh.Control.Wire.{type_probe_reply, nonce_len, max_frame_len, decoded, decode}
use mathlib.Core.List.{Memᴰ}

pub data Happening : Type 0 where
  called : (c : ℕ) (target : AddrPort) (nonce : List ℕ) → Happening
  heard : (datagram : List ℕ) (from : AddrPort) → Happening

-- A datagram from the target that holds a probe reply with the nonce.
pub record IsReply (target : AddrPort) (nonce datagram : List ℕ) (from : AddrPort) : Type 0 where
  pub payload : List ℕ
  pub is_frame : decode (take max_frame_len datagram) ≡ decoded type_probe_reply payload
  pub long : ltb (length payload) nonce_len ≡ false
  pub same_nonce : take nonce_len payload ≡ nonce
  pub same_source : unmapped from ≡ target

-- Most recent first: a reply came after the call.
pub data IsAnswered (c : ℕ) (target : AddrPort) (nonce : List ℕ) : List Happening → Type 0 where
  answered_now :
      (datagram : List ℕ) (from : AddrPort) (before : List Happening)
      → IsReply target nonce datagram from
      → Memᴰ (called c target nonce) before
      → IsAnswered c target nonce (heard datagram from ∷ before)
  answered_before :
      (e : Happening) (before : List Happening)
      → IsAnswered c target nonce before
      → IsAnswered c target nonce (e ∷ before)

pub record IsAwaited (closes : ℕ → ℕ) (calls : ℕ → Option Call) (nonce : List ℕ) (w : Waiter)
    : Type 0 where
  pub call : Call
  pub its : calls w.replied ≡ some call
  pub same_target : call.target ≡ w.target
  pub same_nonce : call.nonce ≡ nonce
  pub unclosed : closes w.replied ≡ 0
  pub running : is_returned call.phase ≡ false

pub record IsWatched (waiters : List ℕ → Option Waiter) (closes : ℕ → ℕ) (calls : ℕ → Option Call)
    (fresh : ℕ) (history : List Happening) : Type 0 where
  pub awaited : (n : List ℕ) (w : Waiter) → waiters n ≡ some w → IsAwaited closes calls n w
  pub noted :
      (c : ℕ) (call : Call) → calls c ≡ some call → Memᴰ (called c call.target call.nonce) history
  pub replied :
      (c : ℕ) (call : Call)
      → calls c ≡ some call
      → 0 < closes c
      → IsAnswered c call.target call.nonce history
  pub reached :
      (c : ℕ) (call : Call) (e : Bool)
      → calls c ≡ some call
      → call.phase ≡ returned true e
      → 0 < closes c
  pub once : (c : ℕ) → closes c ≤ 1
  pub unused : (c : ℕ) → fresh ≤ c → (calls c ≡ none) × (closes c ≡ 0)

pub updated :
    {K V : Type 0} (eq : K → K → Bool) (k j : K) (v w : V) (m : K → Option V)
    → update eq k (some v) m j ≡ some w
    → ((eq k j ≡ true) × (v ≡ w)) ⊎ ((eq k j ≡ false) × (m j ≡ some w))
updated eq k j v w m e = ground arith

pub deleted :
    {K V : Type 0} (eq : K → K → Bool) (k j : K) (w : V) (m : K → Option V)
    → update eq k none m j ≡ some w
    → (eq k j ≡ false) × (m j ≡ some w)
deleted eq k j w m e = ground arith
