-- ===== src/Frontend/Machines/Search.antt =====
-- The machines that the search of web/src/frontend/routes/admin/machines.tsx shows.
use mesh2mesh.Base.{
  null, keep, Text, starts_with, starts_with-append, trim, ◌==◌, ==_iff, Bool-cases, and_parts, ◌≡◌,
  refl, sym, ap, ◌∙◌, ◌↔◌, ◌⊎◌, inl, inr, Bool, true, false, ◌||◌, Option, none, some, List, [],
  ◌∷◌, ◌++◌, arith,
}
use mesh2mesh.Frontend.Api.{Peer}
use mesh2mesh.Frontend.Machines.{includes, insert, sort, field_has, is_match, shown}
use mesh2mesh.Frontend.Machines.Order.{IsSorted, shown-IsSorted}

abbrev pub Has : Peer → List Peer → Type 0
Has p [] = ⊥
Has p (q ∷ qs) = (p ≡ q) ⊎ Has p qs

module _ (before : Text → Text → Bool) where
  Has-insert_to : (p q : Peer) (qs : List Peer) → Has p (insert before q qs) → (p ≡ q) ⊎ Has p qs
  Has-insert_to p q [] h = h
  Has-insert_to p q (r ∷ qs) h = ground (arith, Has-insert_to p q qs)

  Has-insert_from : (p q : Peer) (qs : List Peer) → (p ≡ q) ⊎ Has p qs → Has p (insert before q qs)
  Has-insert_from p q [] h = h
  Has-insert_from p q (r ∷ qs) h = ground (arith, Has-insert_from p q qs)

  Has-sort : (p : Peer) (qs : List Peer) → Has p (sort before qs) ↔ Has p qs
  Has-sort p [] = ((λ h. h), (λ h. h))
  Has-sort p (q ∷ qs) = (
    (λ h. elim (Has-insert_to p q (sort before qs) h) [
      | inl e ↦ inl e
      | inr more ↦ inr ((Has-sort p qs).0 more)
    ]),
    (λ h.
        Has-insert_from p q (sort before qs)
          (elim h [ inl e ↦ inl e | inr more ↦ inr ((Has-sort p qs).1 more) ])),
  )

Has-keep_to :
    (test : Peer → Bool) (p : Peer) (qs : List Peer)
    → Has p (keep test qs)
    → Has p qs × (test p ≡ true)
Has-keep_to test p [] h = elim h [ ]
Has-keep_to test p (q ∷ qs) h = ground (arith, Has-keep_to test p qs)

Has-keep_from :
    (test : Peer → Bool) (p : Peer) (qs : List Peer)
    → Has p qs
    → test p ≡ true
    → Has p (keep test qs)
Has-keep_from test p [] h k = h
Has-keep_from test p (q ∷ qs) h k = ground (arith, Has-keep_from test p qs)

-- The text `q` stands somewhere in the text `v`.
abbrev pub Within : Text → Text → Type 0
Within q v = (front : Text) × ((back : Text) × (v ≡ front ++ (q ++ back)))

abbrev MaybeWithin : (Text → Text) → Text → Option Text → Type 0
MaybeWithin to_lower q none = ⊥
MaybeWithin to_lower q (some v) = Within q (to_lower v)

-- What the search looks at: the name, the mesh address, the two endpoints and the id.
abbrev pub IsFound : (to_lower : Text → Text) → (q : Text) → Peer → Type 0
IsFound to_lower q p =
    Within q (to_lower p.name)
    ⊎ Within q (to_lower p.mesh_ip)
    ⊎ MaybeWithin to_lower q p.endpoint
    ⊎ MaybeWithin to_lower q p.nat_endpoint
    ⊎ Within q (to_lower p.peer_id)

starts_with_to : (q v : Text) → starts_with q v ≡ true → (back : Text) × (v ≡ q ++ back)
starts_with_to [] v h = (v, refl)
starts_with_to (a ∷ q) [] h = cc
starts_with_to (a ∷ q) (b ∷ v) h =
    let (same, more) = and_parts (a == b) (starts_with q v) h in
    let (back, e) = starts_with_to q v more in
    (back, ap (λ c. c ∷ v) (sym ((==_iff a b).0 same)) ∙ ap (λ t. a ∷ t) e)

includes_to : (v q : Text) → includes v q ≡ true → Within q v
includes_to [] [] h = ([], ([], refl))
includes_to [] (a ∷ q) h = cc
includes_to (c ∷ v) q h = elim (Bool-cases (starts_with q (c ∷ v))) [
  | inl here ↦ let (back, e) = starts_with_to q (c ∷ v) here in ([], (back, e))
  | inr later ↦
      let (front, more) = includes_to v q (ground arith) in
      let (back, e) = more in (c ∷ front, (back, ap (λ t. c ∷ t) e))
]

includes-middle : (front q back : Text) → includes (front ++ (q ++ back)) q ≡ true
includes-middle [] [] [] = refl
includes-middle [] [] (c ∷ back) = refl
includes-middle [] (a ∷ q) back =
    ap (λ b. b || includes (q ++ back) (a ∷ q)) (starts_with-append (a ∷ q) back)
includes-middle (c ∷ front) q back = ground (arith, includes-middle front q back)

includes_iff : (v q : Text) → (includes v q ≡ true) ↔ Within q v
includes_iff v q = (
  includes_to v q,
  (λ w.
      let (front, more) = w in
      let (back, e) = more in ap (λ t. includes t q) e ∙ includes-middle front q back),
)

field_has_iff :
    (to_lower : Text → Text) (q : Text) (v : Option Text)
    → (field_has to_lower q v ≡ true) ↔ MaybeWithin to_lower q v
field_has_iff to_lower q none = ((λ e. cc), (λ h. absurd h))
field_has_iff to_lower q (some v) = includes_iff (to_lower v) q

or_iff : {P Q : Type 0} (a b : Bool) → (a ≡ true) ↔ P → (b ≡ true) ↔ Q → (a || b ≡ true) ↔ (P ⊎ Q)
or_iff true b f g = ((λ e. inl (f.0 refl)), (λ h. refl))
or_iff false b f g =
    ((λ e. inr (g.0 e)), (λ h. elim h [ inl x ↦ absurd (let e = f.1 x in cc) | inr y ↦ g.1 y ]))

is_match_iff :
    (to_lower : Text → Text) (q : Text) (p : Peer)
    → (is_match to_lower q p ≡ true) ↔ IsFound to_lower q p
is_match_iff to_lower q p =
    let has = field_has_iff to_lower q in
    let last : (b : Bool) → b || false ≡ b = (λ b. ground arith) in
    or_iff _ _ (has (some p.name)) (
      or_iff _ _ (has (some p.mesh_ip)) (
        or_iff _ _ (has p.endpoint) (
          or_iff _ _ (has p.nat_endpoint) (
            (λ e. (has (some p.peer_id)).0 (sym (last _) ∙ e)),
            (λ h. last _ ∙ (has (some p.peer_id)).1 h),
          ))))

blank-IsFound :
    (to_lower : Text → Text) (q : Text) (p : Peer) → null q ≡ true → IsFound to_lower q p
blank-IsFound to_lower [] p h = inl ([], (to_lower p.name, refl))
blank-IsFound to_lower (c ∷ q) p h = cc

Has-shown_iff :
    (to_lower : Text → Text) (before : Text → Text → Bool) (filter : Text) (p : Peer)
    (ps : List Peer)
    → Has p (shown to_lower before filter (some ps))
      ↔ (Has p ps × IsFound to_lower (to_lower (trim filter)) p)
unfolding shown
Has-shown_iff to_lower before filter p ps =
    let q = to_lower (trim filter) in
    let found = is_match_iff to_lower q p in
    elim (Bool-cases (null q)) [
      | inl blank ↦ rw blank (
        (λ h. ((Has-sort before p ps).0 h, blank-IsFound to_lower q p blank)),
        (λ h. (Has-sort before p ps).1 h.0),
      )
      | inr given ↦ rw given (
        (λ h.
            let (in_list, holds) = Has-keep_to (is_match to_lower q) p (sort before ps) h in
            ((Has-sort before p ps).0 in_list, found.0 holds)),
        (λ h.
            Has-keep_from (is_match to_lower q) p (sort before ps) ((Has-sort before p ps).1 h.0)
              (found.1 h.1)),
      )
    ]

-- The list shows just those of the tenant's machines of which the name, the mesh address, one of
-- the two endpoints that are known, or the id holds the search's text without its outer spaces,
-- somewhere and both in lower case; and it shows them in the order of their names, where the
-- comparison of names is total and transitive.
pub shown_iff :
    (to_lower : Text → Text) (before : Text → Text → Bool) (filter : Text) (p : Peer)
    (ps : List Peer) (total : (a b : Text) → before a b ≡ false → before b a ≡ true)
    (trans : (a b c : Text) → before a b ≡ true → before b c ≡ true → before a c ≡ true)
    → (Has p (shown to_lower before filter (some ps))
        ↔ (Has p ps × IsFound to_lower (to_lower (trim filter)) p))
      × IsSorted before (shown to_lower before filter (some ps))
shown_iff to_lower before filter p ps total trans = (
  Has-shown_iff to_lower before filter p ps,
  shown-IsSorted before total trans to_lower filter ps,
)
