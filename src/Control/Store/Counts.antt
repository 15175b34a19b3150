-- ===== src/Control/Store/Counts.antt =====
-- Rows that satisfy a condition: whether there are any, and how many.
use mesh2mesh.Base.{
  length, any, keep, find, Bool-cases, ℕ, suc, ◌+◌, ◌≤◌, ◌<◌, ◌≡◌, refl, sym, ap, ◌∙◌, inl, inr,
  Bool, true, false, not, none, some, List, [], ◌∷◌, map, arith,
}

pub twice : {n : ℕ} → 0 < n → suc n ≤ 1 → ⊥
twice l u = omega arith

module _ {A : Type 0} where
  -- A condition that the rows keep when they are changed.
  pub any-map :
      (p : A → Bool) (f : A → A)
      → ((x : A) → p (f x) ≡ p x)
      → (xs : List A) → any p (map f xs) ≡ any p xs
  any-map p f e [] = refl
  any-map p f e (x ∷ xs) = rw (e x, any-map p f e xs) refl

  pub count-map :
      (p : A → Bool) (f : A → A)
      → ((x : A) → p (f x) ≡ p x)
      → (xs : List A) → length (keep p (map f xs)) ≡ length (keep p xs)
  count-map p f e [] = refl
  count-map p f e (x ∷ xs) = elim (Bool-cases (p x)) [
    | inl yes_x ↦ rw (e x, yes_x) (ap suc (count-map p f e xs))
    | inr no_x ↦ rw (e x, no_x) (count-map p f e xs)
  ]

  pub count_none : (p : A → Bool) (xs : List A) → any p xs ≡ false → length (keep p xs) ≡ 0
  count_none p [] e = refl
  count_none p (x ∷ xs) e =
      let here : p x ≡ false = ground arith in
      let later : any p xs ≡ false = ground arith in rw here (count_none p xs later)

  pub any_counted : (p : A → Bool) (xs : List A) → 0 < length (keep p xs) → any p xs ≡ true
  any_counted p xs h = elim (Bool-cases (any p xs)) [
    | inl hit ↦ hit
    | inr miss ↦ absurd (omega (arith, h, count_none p xs miss))
  ]

  pub counted_any : (p : A → Bool) (xs : List A) → any p xs ≡ true → 0 < length (keep p xs)
  counted_any p [] e = absurd (false-true e)
    where
      false-true : false ≡ true → ⊥
      false-true e = cc
  counted_any p (x ∷ xs) e = elim (Bool-cases (p x)) [
    | inl hit ↦ rw hit (omega arith)
    | inr miss ↦ rw miss (counted_any p xs (rw miss at e))
  ]

  pub none_more : (p : A → Bool) (xs : List A) → suc (length (keep p xs)) ≤ 1 → any p xs ≡ false
  none_more p xs l = elim (Bool-cases (any p xs)) [
    | inl more ↦ absurd (twice (counted_any p xs more) l)
    | inr empty ↦ empty
  ]

  pub any_implied :
      (p q : A → Bool)
      → ((x : A) → p x ≡ true → q x ≡ true)
      → (xs : List A) → any p xs ≡ true
      → any q xs ≡ true
  any_implied p q i [] e = e
  any_implied p q i (x ∷ xs) e = elim (Bool-cases (p x)) [
    | inl hit ↦ rw (i x hit) refl
    | inr miss ↦ let rest = any_implied p q i xs (rw miss at e) in ground arith
  ]

  pub any-keep : (p q : A → Bool) (xs : List A) → any p (keep q xs) ≡ true → any p xs ≡ true
  any-keep p q [] e = e
  any-keep p q (x ∷ xs) e = elim (Bool-cases (q x)) [
    | inl stays ↦ elim (Bool-cases (p x)) [
      | inl hit ↦ rw hit refl
      | inr miss ↦ let rest = any-keep p q xs (rw (stays, miss) at e) in ground arith
    ]
    | inr goes ↦ let rest = any-keep p q xs (rw goes at e) in ground arith
  ]

  -- What a deletion leaves: all but as many as it deletes.
  pub count-delete :
      (p q : A → Bool) (xs : List A)
      → length (keep p xs) ≤ length (keep p (keep (λ x. not (q x)) xs)) + length (keep q xs)
  count-delete p q [] = omega arith
  count-delete p q (x ∷ xs) =
      let rest = count-delete p q xs in
      elim (Bool-cases (q x)) [
        | inl goes ↦ elim (Bool-cases (p x)) [
          | inl hit ↦ rw (goes, hit) (omega (arith, rest))
          | inr miss ↦ rw (goes, miss) (omega (arith, rest))
        ]
        | inr stays ↦ elim (Bool-cases (p x)) [
          | inl hit ↦ rw (stays, hit) (omega (arith, rest))
          | inr miss ↦ rw (stays, miss) (omega (arith, rest))
        ]
      ]

  pub count-delete_le :
      (p q : A → Bool) (xs : List A) → length (keep p (keep q xs)) ≤ length (keep p xs)
  count-delete_le p q [] = omega arith
  count-delete_le p q (x ∷ xs) =
      let rest = count-delete_le p q xs in
      elim (Bool-cases (q x)) [
        | inl stays ↦ elim (Bool-cases (p x)) [
          | inl hit ↦ rw (stays, hit) (omega (arith, rest))
          | inr miss ↦ rw (stays, miss) (omega (arith, rest))
        ]
        | inr goes ↦ elim (Bool-cases (p x)) [
          | inl hit ↦ rw (goes, hit) (omega (arith, rest))
          | inr miss ↦ rw (goes, miss) (omega (arith, rest))
        ]
      ]

  any-delete_none :
      (p q : A → Bool) (xs : List A)
      → any q xs ≡ false
      → any p xs ≡ true
      → any p (keep (λ x. not (q x)) xs) ≡ true
  any-delete_none p q [] n e = e
  any-delete_none p q (x ∷ xs) n e =
      let here : q x ≡ false = ground arith in
      let later : any q xs ≡ false = ground arith in
      elim (Bool-cases (p x)) [
        | inl hit ↦ rw (here, hit) refl
        | inr miss ↦ rw (here, miss) (any-delete_none p q xs later (rw miss at e))
      ]

  found : {x m : A} → some x ≡ some m → x ≡ m
  found e = cc

  pub find-some :
      (q : A → Bool) (xs : List A) (m : A)
      → find q xs ≡ some m
      → (q m ≡ true) × ((p : A → Bool) → p m ≡ true → any p xs ≡ true)
  find-some q [] m e = absurd (nothing e)
    where
      nothing : {m : A} → none ≡ some m → ⊥
      nothing e = cc
  find-some q (x ∷ xs) m e = elim (Bool-cases (q x)) [
    | inl hit ↦
        let same : x ≡ m = found (rw hit at e) in
        (ap q (sym same) ∙ hit, λ p h. rw (ap p same ∙ h) refl)
    | inr miss ↦
        let (holds, rest) = find-some q xs m (rw miss at e) in
        (holds, λ p h. let later = rest p h in ground arith)
  ]

  -- A deletion of one row leaves the rows that it is not.
  pub any-delete_one :
      (p q : A → Bool) (xs : List A) (m : A)
      → find q xs ≡ some m
      → length (keep q xs) ≤ 1
      → p m ≡ false
      → any p xs ≡ true
      → any p (keep (λ x. not (q x)) xs) ≡ true
  any-delete_one p q [] m f l n e = e
  any-delete_one p q (x ∷ xs) m f l n e = elim (Bool-cases (q x)) [
    | inl goes ↦
        let same : x ≡ m = found (rw goes at f) in
        let not_here : p x ≡ false = ap p same ∙ n in
        let none_later : any q xs ≡ false = none_more q xs (rw goes at l) in
        rw goes (any-delete_none p q xs none_later (rw not_here at e))
    | inr stays ↦ elim (Bool-cases (p x)) [
      | inl hit ↦ rw (stays, hit) refl
      | inr miss ↦
          rw (stays, miss)
            (any-delete_one p q xs m (rw stays at f) (rw stays at l) n (rw miss at e))
    ]
  ]
