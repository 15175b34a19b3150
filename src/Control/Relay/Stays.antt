-- ===== src/Control/Relay/Stays.antt =====
-- A session of internal/relay/relay.go stays at an address while other frames come in.
use mesh2mesh.Base.{
  length, take, All, text_eq, text_eq_iff, ltb, leb, ◌==◌, ==_iff, Bool-cases, clash, ℕ, ◌≤◌, ◌≡◌,
  refl, sym, ap, ◌∙◌, inl, inr, true, false, Option, none, some, List, [], ◌∷◌,
}
use mesh2mesh.Control.Netip.{AddrPort, addr_port_eq, is_valid, addr_port_eq_iff}
use mesh2mesh.Control.Relay.{
  Relay, live, see, registered, register, forward_from, forward, handle_decoded, handle_frame,
}
use mesh2mesh.Control.Relay.Grants.{
  Grant, grant_of, Registration, see-grant, see-addr, some_injective,
}
use mesh2mesh.Control.Relay.Places.{
  IsAt, see-last_seen, see-IsAt, registered-IsAt, registered-IsAt_other, registered-grant,
  registered-maps,
}
use mesh2mesh.Control.Relay.Reach.{
  unreachable, registration, registration_in, registrations_of, IsSound,
}
use mesh2mesh.Control.Wire.{
  type_relay_register, type_relay_data, relay_token_len, relay_header_len, Decoded, decoded,
  malformed, decode,
}

-- A session that is at an address, and was seen at a time or later.
pub record Sits (s : ℕ) (a : AddrPort) (since : ℕ) (r : Relay) : Type 0 where
  pub seen : ℕ
  pub is_at : IsAt s a seen r
  pub seen_since : since ≤ seen

-- What only `Issue` changes: the tokens, the mesh addresses, and what the sessions were granted.
pub record Keeps (r0 r : Relay) : Type 0 where
  pub tokens : r.by_token ≡ r0.by_token
  pub meshes : r.by_mesh ≡ r0.by_mesh
  pub grants : (t : ℕ) → grant_of (r.heap t) ≡ grant_of (r0.heap t)

abbrev pub keeps_self : (r : Relay) → Keeps r r
keeps_self r = record { tokens = refl; meshes = refl; grants = λ t. refl }

pub Keeps_trans : (r0 r1 r2 : Relay) → Keeps r0 r1 → Keeps r1 r2 → Keeps r0 r2
Keeps_trans r0 r1 r2 h k = record {
  tokens = k.tokens ∙ h.tokens;
  meshes = k.meshes ∙ h.meshes;
  grants = λ t. k.grants t ∙ h.grants t;
}

-- A registration with the token is from the address, and one with another token is from elsewhere.
abbrev pub Agrees : List ℕ → AddrPort → Registration → Type 0
Agrees k a (src, j) = text_eq j k ≡ addr_port_eq src a

module _ (issued : List Grant) (regs : List Registration) (r : Relay)
    (sound : IsSound issued regs r) (now : ℕ) where
  registered-Keeps :
      (o : Option ℕ) (j : List ℕ) (src : AddrPort) → Keeps r (registered o j src now r).1
  registered-Keeps none j src = keeps_self r
  registered-Keeps (some u) j src =
      let (meshes, tokens) = registered-maps issued regs r sound u src now j in
      record {
        tokens = tokens;
        meshes = meshes;
        grants = registered-grant issued regs r sound u src now j;
      }

  forward_from-Keeps : (o : Option ℕ) (frame : List ℕ) → Keeps r (forward_from o frame now r).1
  forward_from-Keeps none frame = keeps_self r
  forward_from-Keeps (some u) frame =
      let seen : Keeps r (see u now r) = record {
        tokens = refl;
        meshes = refl;
        grants = see-grant u now r;
      } in
      elim (Bool-cases (unreachable u frame now r)) [ inl h ↦ rw h seen | inr h ↦ rw h seen ]

  forward-Keeps : (frame : List ℕ) (src : AddrPort) → Keeps r (forward frame src now r).1
  unfolding forward
  forward-Keeps frame src = elim (Bool-cases (leb (length frame) relay_header_len)) [
    | inl short ↦ rw short (keeps_self r)
    | inr long ↦ elim (Bool-cases (live r (r.by_addr src) now)) [
      | inl l ↦ rw (long, l) (forward_from-Keeps (r.by_addr src) frame)
      | inr l ↦ rw (long, l) (keeps_self r)
    ]
  ]

  register-Keeps : (payload : List ℕ) (src : AddrPort) → Keeps r (register payload src now r).1
  unfolding register
  register-Keeps payload src = elim (Bool-cases (ltb (length payload) relay_token_len)) [
    | inl short ↦ rw short (keeps_self r)
    | inr long ↦ rw long (
        registered-Keeps (r.by_token (take relay_token_len payload)) (take relay_token_len payload)
          src)
  ]

  handle_decoded-Keeps :
      (d : Decoded) (frame : List ℕ) (src : AddrPort) → Keeps r (handle_decoded d frame src now r).1
  handle_decoded-Keeps (malformed e) frame src = keeps_self r
  handle_decoded-Keeps (decoded type payload) frame src =
      elim (Bool-cases (type == type_relay_register)) [
        | inl t ↦ rw t (register-Keeps payload src)
        | inr n ↦ elim (Bool-cases (type == type_relay_data)) [
          | inl t ↦ rw (n, t) (forward-Keeps frame src)
          | inr m ↦ rw (n, m) (keeps_self r)
        ]
      ]

  pub handle_frame-Keeps :
      (frame : List ℕ) (src : AddrPort) → Keeps r (handle_frame frame src now r).1
  unfolding handle_frame
  handle_frame-Keeps frame src = handle_decoded-Keeps (decode frame) frame src

  module _ (s : ℕ) (a : AddrPort) (since : ℕ) (k : List ℕ) (held : r.by_token k ≡ some s)
      (valid : is_valid a ≡ true) (later : since ≤ now) (sits : Sits s a since r) where
    own_registration :
        (j : List ℕ) (src : AddrPort) → src ≡ a → Sits s a since (registered (some s) j src now r).1
    own_registration j src f = record {
      seen = now;
      is_at = rw f (registered-IsAt issued regs r sound s a now k held valid);
      seen_since = later;
    }

    registered-Sits :
        (o : Option ℕ) (j : List ℕ) (src : AddrPort)
        → r.by_token j ≡ o
        → Agrees k a (src, j)
        → Sits s a since (registered o j src now r).1
    registered-Sits none j src e agrees = sits
    registered-Sits (some u) j src e agrees = elim (Bool-cases (text_eq j k)) [
      | inl mine ↦
          let same = (text_eq_iff j k).0 mine in
          let who = some_injective (sym e ∙ ap r.by_token same ∙ held) in
          rw who (own_registration j src ((addr_port_eq_iff src a).0 (sym agrees ∙ mine)))
      | inr other ↦ record {
        seen = sits.seen;
        is_at =
            registered-IsAt_other issued regs r sound u src now j s a sits.seen
              (another u j e other) (sym agrees ∙ other) sits.is_at;
        seen_since = sits.seen_since;
      }
    ]
      where
        another :
            (u : ℕ) (j : List ℕ) → r.by_token j ≡ some u → text_eq j k ≡ false → (u == s) ≡ false
        another u j e other = elim (Bool-cases (u == s)) [
          | inl same ↦
              let token = ap (λ t. (r.heap t).token) ((==_iff u s).0 same) in
              absurd (
                clash other (
                  (text_eq_iff j k).1
                    (sym (sound.0.token_held j u e).1 ∙ token ∙ (sound.0.token_held k s held).1)))
          | inr differ ↦ differ
        ]

    see-Sits : (u : ℕ) → Sits s a since (see u now r)
    see-Sits u = elim (Bool-cases (u == s)) [
      | inl same ↦ record {
        seen = now;
        is_at = rw ((==_iff u s).0 same) (record {
          found = sits.is_at.found;
          addr = see-addr s now r s ∙ sits.is_at.addr;
          last_seen = see-last_seen s now r;
        });
        seen_since = later;
      }
      | inr differ ↦ record {
        seen = sits.seen;
        is_at = see-IsAt u now s a sits.seen r differ sits.is_at;
        seen_since = sits.seen_since;
      }
    ]

    forward_from-Sits :
        (o : Option ℕ) (frame : List ℕ) → Sits s a since (forward_from o frame now r).1
    forward_from-Sits none frame = sits
    forward_from-Sits (some u) frame = elim (Bool-cases (unreachable u frame now r)) [
      | inl h ↦ rw h (see-Sits u)
      | inr h ↦ rw h (see-Sits u)
    ]

    forward-Sits : (frame : List ℕ) (src : AddrPort) → Sits s a since (forward frame src now r).1
    unfolding forward
    forward-Sits frame src = elim (Bool-cases (leb (length frame) relay_header_len)) [
      | inl short ↦ rw short sits
      | inr long ↦ elim (Bool-cases (live r (r.by_addr src) now)) [
        | inl l ↦ rw (long, l) (forward_from-Sits (r.by_addr src) frame)
        | inr l ↦ rw (long, l) sits
      ]
    ]

    register-Sits :
        (payload : List ℕ) (src : AddrPort)
        → All (Agrees k a) (registration payload src)
        → Sits s a since (register payload src now r).1
    unfolding register
    register-Sits payload src agrees = elim (Bool-cases (ltb (length payload) relay_token_len)) [
      | inl short ↦ rw short sits
      | inr long ↦
          let one : All (Agrees k a) ((src, take relay_token_len payload) ∷ []) =
            (rw long at agrees) in
          rw long (
            registered-Sits (r.by_token (take relay_token_len payload))
              (take relay_token_len payload) src refl one.0)
    ]

    handle_decoded-Sits :
        (d : Decoded) (frame : List ℕ) (src : AddrPort)
        → All (Agrees k a) (registration_in d src)
        → Sits s a since (handle_decoded d frame src now r).1
    handle_decoded-Sits (malformed e) frame src agrees = sits
    handle_decoded-Sits (decoded type payload) frame src agrees =
        elim (Bool-cases (type == type_relay_register)) [
          | inl t ↦
              let here : All (Agrees k a) (registration payload src) = (rw t at agrees) in
              rw t (register-Sits payload src here)
          | inr n ↦ elim (Bool-cases (type == type_relay_data)) [
            | inl t ↦ rw (n, t) (forward-Sits frame src)
            | inr m ↦ rw (n, m) sits
          ]
        ]

    pub handle_frame-Sits :
        (frame : List ℕ) (src : AddrPort)
        → All (Agrees k a) (registrations_of frame src)
        → Sits s a since (handle_frame frame src now r).1
    unfolding handle_frame
    handle_frame-Sits frame src agrees = handle_decoded-Sits (decode frame) frame src agrees
