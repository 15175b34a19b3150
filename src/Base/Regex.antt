-- ===== src/Base/Regex.antt =====
-- The regular expressions of the program, by what follows: a pattern takes the test of the rest.
use Prim.Native.Nat.{ℕ, zero, suc}
use mathlib.Core.Path.{◌≡◌, refl}
use mathlib.Core.Bool.{Bool, true, false, ◌&&◌, ◌||◌}
use mathlib.Core.List.{[], ◌∷◌, ◌++◌}
use native.Mathlib.Omega.{arith}
use mesh2mesh.Base.Tests.{◌==◌, ==_iff, and_parts}
use mesh2mesh.Base.Lists.{null, all, length}
use mesh2mesh.Base.Strings.{Text}

abbrev pub Pattern : Type 0
Pattern = (Text → Bool) → Text → Bool

-- `^p$`
unfoldable pub full_match : Pattern → Text → Bool
full_match p s = p null s

-- a literal text
pub word : Text → Pattern
word [] rest s = rest s
word (a ∷ t) rest [] = false
word (a ∷ t) rest (b ∷ s) = a == b && word t rest s

-- `[c]{n}`
pub times : ℕ → (ℕ → Bool) → Pattern
times zero c rest s = rest s
times (suc n) c rest [] = false
times (suc n) c rest (b ∷ s) = c b && times n c rest s

-- `[c]+`
unfoldable pub plus : (ℕ → Bool) → Pattern
plus c rest [] = false
plus c rest (b ∷ s) = c b && (rest s || plus c rest s)

-- `p` and then `q`; `p` or `q`
infixr 30 ◌then_match◌
abbrev pub ◌then_match◌ : Pattern → Pattern → Pattern
(p then_match q) rest s = p (q rest) s

abbrev pub either : Pattern → Pattern → Pattern
either p q rest s = p rest s || q rest s

-- A literal takes exactly itself.
pub word-append : (t s : Text) (rest : Text → Bool) → word t rest (t ++ s) ≡ rest s
unfolding word
word-append [] s rest = refl
word-append (a ∷ t) s rest = ground (arith, word-append t s rest)

pub word-splits :
    (t s : Text) (rest : Text → Bool)
    → word t rest s ≡ true
    → (r : Text) × (s ≡ t ++ r) × (rest r ≡ true)
unfolding word
word-splits [] s rest h = (s, refl, h)
word-splits (a ∷ t) [] rest h = cc
word-splits (a ∷ t) (b ∷ s) rest h =
    let (same, more) = and_parts (a == b) (word t rest s) h in
    let (r, e, k) = word-splits t s rest more in (r, ground (arith, ==_iff a b), k)

pub times-append :
    (c : ℕ → Bool) (t s : Text) (rest : Text → Bool)
    → all c t ≡ true
    → times (length t) c rest (t ++ s) ≡ rest s
unfolding times
times-append c [] s rest h = refl
times-append c (b ∷ t) s rest h = ground (arith, times-append c t s rest)

pub times-splits :
    (n : ℕ) (c : ℕ → Bool) (s : Text) (rest : Text → Bool)
    → times n c rest s ≡ true
    → (t r : Text) × (s ≡ t ++ r) × (length t ≡ n) × (all c t ≡ true) × (rest r ≡ true)
unfolding times
times-splits zero c s rest h = ([], s, refl, refl, refl, h)
times-splits (suc n) c [] rest h = cc
times-splits (suc n) c (b ∷ s) rest h =
    let (one, more) = and_parts (c b) (times n c rest s) h in
    let (t, r, e, len, cs, k) = times-splits n c s rest more in
    (b ∷ t, r, cc, ground arith, ground arith, k)

-- `[c]+$` takes the texts of the class that are not empty.
pub plus-null : (c : ℕ → Bool) (b : ℕ) (s : Text) → plus c null (b ∷ s) ≡ all c (b ∷ s)
unfolding plus
plus-null c b [] = ground arith
plus-null c b (d ∷ s) = ground (arith, plus-null c d s)
