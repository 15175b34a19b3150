-- ===== src/Control/Registry/Rows.antt =====
-- Rows of a table: those that satisfy a condition, and what holds of each of them.
use mesh2mesh.Base.{
  length, any, keep, find, All, Bool-cases, clash, ◌≤◌, ◌≡◌, refl, ap, ◌∙◌, subst, inl, inr, Bool,
  true, false, none, some, List, [], ◌∷◌, map, arith,
}
use mesh2mesh.Control.Store.Counts.{twice, count_none, counted_any, none_more, find-some}

pub null_some : {A : Type 0} {m : A} → none ≡ some m → ⊥
null_some e = cc

pub same_row : {A : Type 0} {x m : A} → some x ≡ some m → x ≡ m
same_row e = cc

module _ {A : Type 0} (P : A → Type 0) (p : A → Bool) where
  pub All-find : (xs : List A) (a : A) → All P xs → find p xs ≡ some a → P a
  All-find [] a h e = absurd (null_some e)
  All-find (x ∷ xs) a (h, hs) e = elim (Bool-cases (p x)) [
    | inl hit ↦ subst P (same_row (rw hit at e)) h
    | inr miss ↦ All-find xs a hs (rw miss at e)
  ]

  vacuous : (xs : List A) → any p xs ≡ false → All (λ x. p x ≡ true → P x) xs
  vacuous [] n = tt
  vacuous (x ∷ xs) n =
      let here : p x ≡ false = ground arith in
      let later : any p xs ≡ false = ground arith in
      (λ hit. absurd (clash here hit), vacuous xs later)

  -- What holds of the row that a query finds holds of all rows of a condition that only one meets.
  pub All-only :
      (q : A → Bool) (xs : List A) (a : A)
      → ((x : A) → q x ≡ true → P x)
      → find q xs ≡ some a
      → p a ≡ true
      → length (keep p xs) ≤ 1
      → All (λ x. p x ≡ true → P x) xs
  All-only q [] a holds e own once = tt
  All-only q (x ∷ xs) a holds e own once = elim (Bool-cases (q x)) [
    | inl hit ↦
        let mine : p x ≡ true = ap p (same_row (rw hit at e)) ∙ own in
        (λ same. holds x hit, vacuous xs (none_more p xs (rw mine at once)))
    | inr miss ↦
        let rest : find q xs ≡ some a = rw miss at e in
        let later = (find-some q xs a rest).1 p own in
        let other : p x ≡ false = elim (Bool-cases (p x)) [
          | inl same ↦ absurd (twice (counted_any p xs later) (rw same at once))
          | inr differs ↦ differs
        ] in
        (λ same. absurd (clash other same), All-only q xs a holds rest own (rw other at once))
  ]

module _ {A : Type 0} (P Q R : A → Type 0) (f : A → A) where
  pub All-both :
      ((a : A) → P a → Q a → R (f a)) → (xs : List A) → All P xs → All Q xs → All R (map f xs)
  All-both step [] hs ks = tt
  All-both step (x ∷ xs) (h, hs) (k, ks) = (step x h k, All-both step xs hs ks)

module _ {A : Type 0} (p : A → Bool) where
  pub find-any : (xs : List A) → any p xs ≡ true → (a : A) × (find p xs ≡ some a)
  find-any [] e = absurd (clash refl e)
  find-any (x ∷ xs) e = elim (Bool-cases (p x)) [
    | inl hit ↦ (x, rw hit refl)
    | inr miss ↦ let (a, f) = find-any xs (rw miss at e) in (a, rw miss f)
  ]

  -- A row is added that no other row with its values stands beside.
  pub once_more :
      (x : A) (xs : List A)
      → (p x ≡ true → any p xs ≡ false)
      → length (keep p xs) ≤ 1
      → length (keep p (x ∷ xs)) ≤ 1
  once_more x xs alone once = elim (Bool-cases (p x)) [
    | inl hit ↦ rw hit (omega (arith, count_none p xs (alone hit)))
    | inr miss ↦ rw miss once
  ]
