-- ===== src/Base/Maps.antt =====
-- A JavaScript `Map` with text keys as an association list. `set` keeps the place of a key.
use mathlib.Core.Path.{◌≡◌, refl, subst}
use mathlib.Core.Logic.{inl, inr}
use Prim.Native.Nat.{◌+◌, ◌≤◌, ◌<◌}
use mesh2mesh.Base.Tests.{Bool-cases}
use mesh2mesh.Base.Lists.{length}
use mathlib.Core.Bool.{Bool}
use mathlib.Core.Option.{Option, none, some}
use mathlib.Core.List.{List, [], ◌∷◌}
use native.Mathlib.Omega.{arith}
use mesh2mesh.Base.Tests.{if◌then◌else◌}
use mesh2mesh.Base.Strings.{Text, text_eq, text_eq_iff}

abbrev pub Store {ℓ} : Type ℓ → Type ℓ
Store V = List (Text × V)

module _ {ℓ} {V : Type ℓ} where
  unfoldable pub get : Text → Store V → Option V
  get k [] = none
  get k ((j, v) ∷ m) = if text_eq j k then some v else get k m

  unfoldable pub put : Text → V → Store V → Store V
  put k v [] = (k, v) ∷ []
  put k v ((j, w) ∷ m) = if text_eq j k then (k, v) ∷ m else (j, w) ∷ put k v m

  unfoldable pub delete : Text → Store V → Store V
  delete k [] = []
  delete k ((j, v) ∷ m) = if text_eq j k then delete k m else (j, v) ∷ delete k m

  -- The loop `for (const [k, v] of m) if (p(v)) m.delete(k)`.
  unfoldable pub delete_where : (V → Bool) → Store V → Store V
  delete_where p [] = []
  delete_where p ((j, v) ∷ m) = if p v then delete_where p m else (j, v) ∷ delete_where p m

  pub get-put :
      (k j : Text) (v : V) (m : Store V)
      → get j (put k v m) ≡ (if text_eq k j then some v else get j m)
  unfolding get put
  get-put k j v [] = refl
  get-put k j v ((i, w) ∷ m) =
      ground (arith, text_eq_iff k j, text_eq_iff i k, text_eq_iff i j, get-put k j v m)

  pub get-delete :
      (k j : Text) (m : Store V) → get j (delete k m) ≡ (if text_eq k j then none else get j m)
  unfolding get delete
  get-delete k j [] = ground arith
  get-delete k j ((i, w) ∷ m) =
      ground (arith, text_eq_iff k j, text_eq_iff i k, text_eq_iff i j, get-delete k j m)

  -- Every key stands once.
  abbrev pub IsMap : Store V → Type ℓ
  IsMap [] = Unit
  IsMap ((j, v) ∷ m) = (get j m ≡ none) × IsMap m

  pub put-IsMap : (k : Text) (v : V) (m : Store V) → IsMap m → IsMap (put k v m)
  unfolding get put
  put-IsMap k v [] h = (refl, tt)
  put-IsMap k v ((i, w) ∷ m) h =
      ground (arith, text_eq_iff i k, text_eq_iff k i, get-put k i v m, put-IsMap k v m h.1)

  pub delete-IsMap : (k : Text) (m : Store V) → IsMap m → IsMap (delete k m)
  unfolding get delete
  delete-IsMap k [] h = tt
  delete-IsMap k ((i, w) ∷ m) h = ground (arith, get-delete k i m, delete-IsMap k m h.1)

  abbrev pub unless : (V → Bool) → Option V → Option V
  unless p none = none
  unless p (some v) = if p v then none else some v

  pub get-delete_where :
      (p : V → Bool) (j : Text) (m : Store V)
      → IsMap m
      → get j (delete_where p m) ≡ unless p (get j m)
  unfolding get delete_where
  get-delete_where p j [] h = refl
  get-delete_where p j ((i, w) ∷ m) h = ground (arith, text_eq_iff i j, get-delete_where p j m h.1)

  pub delete_where-IsMap : (p : V → Bool) (m : Store V) → IsMap m → IsMap (delete_where p m)
  unfolding get delete_where
  delete_where-IsMap p [] h = tt
  delete_where-IsMap p ((i, w) ∷ m) h =
      ground (arith, get-delete_where p i m h.1, delete_where-IsMap p m h.1)

module _ {ℓ} {V : Type ℓ} where
  pub length-put-le : (k : Text) (v : V) (m : Store V) → length (put k v m) ≤ length m + 1
  unfolding put
  length-put-le k v [] = omega arith
  length-put-le k v ((j, w) ∷ m) = ground (arith, length-put-le k v m)

  pub length-delete-le : (k : Text) (m : Store V) → length (delete k m) ≤ length m
  unfolding delete
  length-delete-le k [] = omega arith
  length-delete-le k ((j, w) ∷ m) = ground (arith, length-delete-le k m)

  pub length-delete-lt :
      (k : Text) (m : Store V) (v : V) → get k m ≡ some v → length (delete k m) < length m
  unfolding get delete
  length-delete-lt k [] v h = cc
  length-delete-lt k ((j, w) ∷ m) v h = ground (arith, length-delete-le k m, length-delete-lt k m v)

  pub length-delete_where-le : (p : V → Bool) (m : Store V) → length (delete_where p m) ≤ length m
  unfolding delete_where
  length-delete_where-le p [] = omega arith
  length-delete_where-le p ((j, w) ∷ m) = ground (arith, length-delete_where-le p m)

-- A predicate on all values of a map.
module _ {ℓ κ} {V : Type ℓ} (P : V → Type κ) where
  abbrev pub AllValues : Store V → Type κ
  AllValues [] = Unit
  AllValues ((k, v) ∷ m) = P v × AllValues m

  pub put-AllValues : (k : Text) (v : V) (m : Store V) → P v → AllValues m → AllValues (put k v m)
  unfolding put
  put-AllValues k v [] p h = (p, tt)
  put-AllValues k v ((j, w) ∷ m) p (q, h) = elim (Bool-cases (text_eq j k)) [
    | inl e ↦ rw e (p, h)
    | inr e ↦ rw e (q, put-AllValues k v m p h)
  ]

  pub delete-AllValues : (k : Text) (m : Store V) → AllValues m → AllValues (delete k m)
  unfolding delete
  delete-AllValues k [] h = tt
  delete-AllValues k ((j, w) ∷ m) (q, h) = elim (Bool-cases (text_eq j k)) [
    | inl e ↦ rw e (delete-AllValues k m h)
    | inr e ↦ rw e (q, delete-AllValues k m h)
  ]

  pub delete_where-AllValues :
      (t : V → Bool) (m : Store V) → AllValues m → AllValues (delete_where t m)
  unfolding delete_where
  delete_where-AllValues t [] h = tt
  delete_where-AllValues t ((j, w) ∷ m) (q, h) = elim (Bool-cases (t w)) [
    | inl e ↦ rw e (delete_where-AllValues t m h)
    | inr e ↦ rw e (q, delete_where-AllValues t m h)
  ]

  pub get-AllValues : (k : Text) (m : Store V) (v : V) → AllValues m → get k m ≡ some v → P v
  unfolding get
  get-AllValues k [] v h e = absurd (none-ne-some e)
    where
      none-ne-some : {v : V} → none ≡ some v → ⊥
      none-ne-some e = cc
  get-AllValues k ((j, w) ∷ m) v (q, h) e = elim (Bool-cases (text_eq j k)) [
    | inl hit ↦ subst P (some-eq (rw hit at e)) q
    | inr miss ↦ get-AllValues k m v h (rw miss at e)
  ]
    where
      some-eq : {a b : V} → some a ≡ some b → a ≡ b
      some-eq e = cc

module _ {ℓ κ ι} {V : Type ℓ} (P : V → Type κ) (Q : V → Type ι) where
  pub AllValues-map : ((v : V) → P v → Q v) → (m : Store V) → AllValues P m → AllValues Q m
  AllValues-map f [] h = tt
  AllValues-map f ((k, v) ∷ m) (p, h) = (f v p, AllValues-map f m h)
