-- ===== src/Frontend/Machines/Order.antt =====
-- The order of the machines in web/src/frontend/routes/admin/machines.tsx.
use mesh2mesh.Base.{
  null, keep, All, Text, trim, Bool-cases, ◌≡◌, inl, inr, Bool, true, false, some, List, [], ◌∷◌,
}
use mesh2mesh.Frontend.Api.{Peer}
use mesh2mesh.Frontend.Machines.{insert, sort, shown}

-- Each machine's name comes before, or with, those of the machines after it.
abbrev pub IsSorted : (Text → Text → Bool) → List Peer → Type 0
IsSorted before [] = Unit
IsSorted before (p ∷ ps) = All (λ q. before p.name q.name ≡ true) ps × IsSorted before ps

module _ (before : Text → Text → Bool)
    (total : (a b : Text) → before a b ≡ false → before b a ≡ true)
    (trans : (a b c : Text) → before a b ≡ true → before b c ≡ true → before a c ≡ true) where
  All-trans :
      (a b : Text) (ps : List Peer)
      → before a b ≡ true
      → All (λ q. before b q.name ≡ true) ps
      → All (λ q. before a q.name ≡ true) ps
  All-trans a b [] h k = k
  All-trans a b (p ∷ ps) h (one, more) = (trans a b p.name h one, All-trans a b ps h more)

  All-insert :
      (a : Text) (p : Peer) (ps : List Peer)
      → before a p.name ≡ true
      → All (λ q. before a q.name ≡ true) ps
      → All (λ q. before a q.name ≡ true) (insert before p ps)
  All-insert a p [] h k = (h, k)
  All-insert a p (q ∷ ps) h (one, more) = elim (Bool-cases (before p.name q.name)) [
    | inl first ↦ rw first (h, (one, more))
    | inr later ↦ rw later (one, All-insert a p ps h more)
  ]

  insert-IsSorted :
      (p : Peer) (ps : List Peer) → IsSorted before ps → IsSorted before (insert before p ps)
  insert-IsSorted p [] h = (tt, tt)
  insert-IsSorted p (q ∷ ps) (one, more) = elim (Bool-cases (before p.name q.name)) [
    | inl first ↦ rw first ((first, All-trans p.name q.name ps first one), (one, more))
    | inr later ↦
        rw later (All-insert q.name p ps (total p.name q.name later) one, insert-IsSorted p ps more)
  ]

  sort-IsSorted : (ps : List Peer) → IsSorted before (sort before ps)
  sort-IsSorted [] = tt
  sort-IsSorted (p ∷ ps) = insert-IsSorted p (sort before ps) (sort-IsSorted ps)

  All-keep :
      (test : Peer → Bool) (a : Text) (ps : List Peer)
      → All (λ q. before a q.name ≡ true) ps
      → All (λ q. before a q.name ≡ true) (keep test ps)
  All-keep test a [] h = h
  All-keep test a (p ∷ ps) (one, more) = elim (Bool-cases (test p)) [
    | inl kept ↦ rw kept (one, All-keep test a ps more)
    | inr drops ↦ rw drops (All-keep test a ps more)
  ]

  keep-IsSorted :
      (test : Peer → Bool) (ps : List Peer) → IsSorted before ps → IsSorted before (keep test ps)
  keep-IsSorted test [] h = h
  keep-IsSorted test (p ∷ ps) (one, more) = elim (Bool-cases (test p)) [
    | inl kept ↦ rw kept (All-keep test p.name ps one, keep-IsSorted test ps more)
    | inr drops ↦ rw drops (keep-IsSorted test ps more)
  ]

  pub shown-IsSorted :
      (to_lower : Text → Text) (filter : Text) (ps : List Peer)
      → IsSorted before (shown to_lower before filter (some ps))
  unfolding shown
  shown-IsSorted to_lower filter ps = elim (Bool-cases (null (to_lower (trim filter)))) [
    | inl blank ↦ rw blank (sort-IsSorted ps)
    | inr given ↦ rw given (keep-IsSorted _ (sort before ps) (sort-IsSorted ps))
  ]
