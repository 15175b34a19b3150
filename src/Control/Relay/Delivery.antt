-- ===== src/Control/Relay/Delivery.antt =====
-- Frames between two peers that registered with internal/relay/relay.go.
-- The frame of a client for the peer at an address of its tenant, and what the relay makes of it.
use mesh2mesh.Base.{
  length, take, drop, length-append, take-append, drop-append, ltb, leb, ◌==◌, ℕ, ◌+◌, ◌-◌, ◌<◌,
  ◌≡◌, refl, ap, ◌∙◌, subst, true, false, not, ◌||◌, some, List, [], ◌∷◌, ◌++◌, arith,
}
use mesh2mesh.Control.Access.{second}
use mesh2mesh.Control.Netip.{v4, AddrPort, is_valid, to_bytes, length-to_bytes, of_bytes-to_bytes}
use mesh2mesh.Control.Relay.{
  Relay, session_ttl, points_to, live, see, as_4, with_ip, destination, pass_on, forward_from,
  forward, handle_decoded, handle_frame,
}
use mesh2mesh.Control.Relay.Arrivals.{
  Incoming, receive_all, receive_all-Keeps, LastRegistration, LastRegistration-Sits,
}
use mesh2mesh.Control.Relay.Grants.{see-grant, see-addr}
use mesh2mesh.Control.Relay.Places.{IsAt, see-IsAt}
use mesh2mesh.Control.Relay.Reach.{RelayFlow, unreachable, RelayReach}
use mesh2mesh.Control.Wire.{type_relay_data, relay_token_len, relay_header_len, encode, decode}
use mesh2mesh.Control.Wire.RoundTrip.{decode_iff}

abbrev pub data_frame : List ℕ → List ℕ → List ℕ
data_frame ip body = encode [] type_relay_data (ip ++ body)

destination-data_frame :
    (n : ℕ) (body : List ℕ) → n < 4294967296 → destination (data_frame (to_bytes 4 n) body) ≡ v4 n
unfolding encode
destination-data_frame n body l =
    let front : take 4 (to_bytes 4 n ++ body) ≡ to_bytes 4 n =
      subst (λ m. take m (to_bytes 4 n ++ body) ≡ to_bytes 4 n) (length-to_bytes 4 n)
        (take-append (to_bytes 4 n) body) in
    rw front (ap v4 (of_bytes-to_bytes 4 n (omega (arith, l))))

with_ip-data_frame :
    (ip : List ℕ) (n : ℕ) (body : List ℕ)
    → with_ip ip (data_frame (to_bytes 4 n) body) ≡ data_frame ip body
unfolding encode
with_ip-data_frame ip n body =
    let back : drop 4 (to_bytes 4 n ++ body) ≡ body =
      subst (λ m. drop m (to_bytes 4 n ++ body) ≡ body) (length-to_bytes 4 n)
        (drop-append (to_bytes 4 n) body) in
    rw back refl

length-data_frame :
    (n : ℕ) (body : List ℕ) → length (data_frame (to_bytes 4 n) body) ≡ 8 + length body
unfolding encode
length-data_frame n body = omega (arith, length-append (to_bytes 4 n) body, length-to_bytes 4 n)

handle_frame-data :
    (frame rest : List ℕ) (src : AddrPort) (now : ℕ) (r : Relay)
    → frame ≡ encode [] type_relay_data rest
    → handle_frame frame src now r ≡ forward frame src now r
unfolding handle_frame
handle_frame-data frame rest src now r e =
    ap (λ d. handle_decoded d frame src now r)
      (ap decode e ∙ (decode_iff [] [] type_relay_data rest).1)

module _ (r : Relay) (s t : ℕ) (a b : AddrPort) (n : ℕ) (body : List ℕ) (t1 t2 now : ℕ)
    (at_a : IsAt s a t1 r) (at_b : IsAt t b t2 r)
    (named : r.by_mesh ((r.heap s).tenant_id, v4 n) ≡ some t) (differ : (s == t) ≡ false)
    (a_valid : is_valid a ≡ true) (b_valid : is_valid b ≡ true) (fresh1 : now - t1 < session_ttl)
    (fresh2 : now - t2 < session_ttl) (small : n < 4294967296) where
  at-live :
      (u : ℕ) (c : AddrPort) (seen : ℕ) (q : Relay)
      → IsAt u c seen q
      → is_valid c ≡ true
      → now - seen < session_ttl
      → live q (some u) now ≡ true
  at-live u c seen q at v l =
      let valid : is_valid (q.heap u).addr ≡ true = ap is_valid at.addr ∙ v in
      let recent : ltb (now - (q.heap u).last_seen) session_ttl ≡ true =
        rw at.last_seen (ground arith) in
      rw (valid, recent) refl

  receiver :
      (see s now r).by_mesh
        (((see s now r).heap s).tenant_id, destination (data_frame (to_bytes 4 n) body))
      ≡ some t
  receiver =
      ap r.by_mesh (
        ap (λ g. (g.tenant_id, destination (data_frame (to_bytes 4 n) body))) (see-grant s now r s)
        ∙ ap (λ ip. ((r.heap s).tenant_id, ip)) (destination-data_frame n body small))
      ∙ named

  reachable : unreachable s (data_frame (to_bytes 4 n) body) now r ≡ false
  reachable =
      let other : (t == s) ≡ false = ground arith in
      let alive =
        at-live t b t2 (see s now r) (see-IsAt s now t b t2 r differ at_b) b_valid fresh2 in
      ap (λ o. points_to o s || not (live (see s now r) o now)) receiver ∙ rw (other, alive) refl

  forward-delivers :
      0 < length body
      → (forward (data_frame (to_bytes 4 n) body) a now r).0
        ≡ record { frame = data_frame (as_4 (r.heap s).mesh_ip) body; to = b } ∷ []
  unfolding forward
  forward-delivers some_body =
      let frame = data_frame (to_bytes 4 n) body in
      let long : leb (length frame) relay_header_len ≡ false =
        let len = length-data_frame n body in ground arith in
      let alive : live r (r.by_addr a) now ≡ true =
        ap (λ o. live r o now) at_a.found ∙ at-live s a t1 r at_a a_valid fresh1 in
      rw (long, alive)
        (ap (λ o. (forward_from o frame now r).0) at_a.found
          ∙ rw reachable (ap (λ o. pass_on s o frame (see s now r)) receiver ∙ datagram))
    where
      datagram :
          pass_on s (some t) (data_frame (to_bytes 4 n) body) (see s now r)
          ≡ record { frame = data_frame (as_4 (r.heap s).mesh_ip) body; to = b } ∷ []
      datagram =
          ap (λ f. record { frame = f; to = ((see s now r).heap t).addr } ∷ [])
            (ap (λ g. with_ip (as_4 g.mesh_ip) (data_frame (to_bytes 4 n) body))
                (see-grant s now r s)
              ∙ with_ip-data_frame (as_4 (r.heap s).mesh_ip) n body)
          ∙ ap (λ c. record { frame = data_frame (as_4 (r.heap s).mesh_ip) body; to = c } ∷ [])
              (see-addr s now r t ∙ at_b.addr)

-- Whatever tokens were issued and whatever datagrams came in before: when datagrams come in, no token
-- being issued meanwhile, and among them two sessions of one tenant register with their tokens from
-- valid addresses, in either order and less than 90 seconds before the data frame, and after its
-- registration each token registers from nowhere else, no other token from its address, and no
-- datagram has an earlier time, then a data frame from the one's address, that names the other's mesh
-- address and has a body, is sent to the other's address, and to no one else, with the one's mesh
-- address in its place.
pub handle_frame-delivers :
    (f : RelayFlow) (es : List Incoming) (s t : ℕ) (k l : List ℕ) (a b : AddrPort) (n : ℕ)
    (body : List ℕ) (t1 t2 t3 : ℕ)
    → RelayReach f
    → f.relay.by_token k ≡ some s
    → f.relay.by_token l ≡ some t
    → length k ≡ relay_token_len
    → length l ≡ relay_token_len
    → f.relay.by_mesh ((f.relay.heap s).tenant_id, v4 n) ≡ some t
    → (s == t) ≡ false
    → is_valid a ≡ true
    → is_valid b ≡ true
    → LastRegistration k a t1 es
    → LastRegistration l b t2 es
    → t3 - t1 < session_ttl
    → t3 - t2 < session_ttl
    → n < 4294967296
    → 0 < length body
    → (handle_frame (data_frame (to_bytes 4 n) body) a t3 (receive_all es f).relay).0
      ≡ record { frame = data_frame (as_4 (f.relay.heap s).mesh_ip) body; to = b } ∷ []
handle_frame-delivers f es s t k l a b n body t1 t2 t3 reach held_k held_l len_k len_l named differ
      va vb first second fresh1 fresh2 small some_body =
    let r = (receive_all es f).relay in
    let sits_a = LastRegistration-Sits f s k a t1 es reach held_k len_k va first in
    let sits_b = LastRegistration-Sits f t l b t2 es reach held_l len_l vb second in
    let kept = receive_all-Keeps es f reach in
    let named2 : r.by_mesh ((r.heap s).tenant_id, v4 n) ≡ some t =
      ap (λ m. m ((r.heap s).tenant_id, v4 n)) kept.meshes
      ∙ ap (λ g. f.relay.by_mesh (g.tenant_id, v4 n)) (kept.grants s)
      ∙ named in
    let alive_a : t3 - sits_a.seen < session_ttl = omega (arith, fresh1, sits_a.seen_since) in
    let alive_b : t3 - sits_b.seen < session_ttl = omega (arith, fresh2, sits_b.seen_since) in
    ap (λ x. x.0)
      (handle_frame-data (data_frame (to_bytes 4 n) body) (to_bytes 4 n ++ body) a t3 r refl)
    ∙ forward-delivers r s t a b n body sits_a.seen sits_b.seen t3 sits_a.is_at sits_b.is_at named2
        differ va vb alive_a alive_b small some_body
    ∙ ap (λ g. record { frame = data_frame (as_4 g.mesh_ip) body; to = b } ∷ []) (kept.grants s)
