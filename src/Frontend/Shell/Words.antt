-- ===== src/Frontend/Shell/Words.antt =====
-- How a shell reads what `shellArg` of web/src/frontend/lib/shell.ts writes. `words` is the part of
-- the POSIX shell language (quoting and word splitting) that the arguments of a command need: a text
-- that needs another part of it, such as an expansion, an operator or a pattern, has no reading here.
use mesh2mesh.Base.{
  all, full_match, plus, plus-null, Text, is_word, join, ◌==◌, if◌then◌else◌, within, ==_iff,
  Bool-cases, and_parts, ℕ, ◌≡◌, refl, sym, ap, ◌∙◌, ◌≢◌, inl, inr, Bool, true, false, not, ◌&&◌,
  ◌||◌, Option, none, some, List, [], ◌∷◌, ◌++◌, map, append_assoc, append-nil, arith,
}
use mesh2mesh.Frontend.Shell.{is_shell_safe, escape_quotes, shell_arg}

pub data Mode : Type 0 where
  gap bare quoted escaped : Mode

-- The characters that mean something to a shell, or to bash or zsh, outside of quotes: POSIX 2.2 and
-- the braces, the brackets, "!" and "^".
is_operator : ℕ → Bool
is_operator c =
    c == b'|'
    || c == b'&'
    || c == b';'
    || c == b'<'
    || c == b'>'
    || c == b'('
    || c == b')'
    || c == b'!'
    || c == b'#'

is_expansion : ℕ → Bool
is_expansion c =
    c == b'$'
    || c == 96
    || c == b'*'
    || c == b'?'
    || c == b'['
    || c == b']'
    || c == b'{'
    || c == b'}'
    || c == b'~'
    || c == b'^'

-- A visible character of ASCII without such a meaning; 34, 39 and 92 are the quotes and "\".
is_literal : ℕ → Bool
unfolding is_operator is_expansion
is_literal c =
    within 33 126 c && not (is_operator c || is_expansion c || c == 34 || c == 39 || c == 92)

abbrev pub cons_word : Text → Option (List Text) → Option (List Text)
cons_word w none = none
cons_word w (some ws) = some (w ∷ ws)

-- The words of a text, in a mode, after the part `cur` of the present word.
pub words_from : Mode → Text → Text → Option (List Text)
words_from gap cur [] = some []
words_from gap cur (c ∷ s) =
    let in_gap = words_from gap [] s in
    let in_quotes = words_from quoted [] s in
    let in_escape = words_from escaped [] s in
    let in_word = words_from bare (c ∷ []) s in
    if c == 32
    then in_gap
    else if c == 39
    then in_quotes
    else if c == 92
    then in_escape
    else if is_literal c
    then in_word
    else none
words_from bare cur [] = some (cur ∷ [])
words_from bare cur (c ∷ s) =
    let in_gap = cons_word cur (words_from gap [] s) in
    let in_quotes = words_from quoted cur s in
    let in_escape = words_from escaped cur s in
    let in_word = words_from bare (cur ++ c ∷ []) s in
    if c == 32
    then in_gap
    else if c == 39
    then in_quotes
    else if c == 92
    then in_escape
    else if is_literal c
    then in_word
    else none
words_from quoted cur [] = none
words_from quoted cur (c ∷ s) =
    let closed = words_from bare cur s in
    let more = words_from quoted (cur ++ c ∷ []) s in if c == 39 then closed else more
words_from escaped cur [] = none
words_from escaped cur (c ∷ s) = words_from bare (cur ++ c ∷ []) s

pub words : Text → Option (List Text)
words s = words_from gap [] s

safe_facts :
    (c : ℕ) → is_shell_safe c ≡ true → (c == 32) ≡ false × ((c == 39) ≡ false) × ((c == 92) ≡ false)
unfolding is_shell_safe is_word
safe_facts c h = ground arith

safe-literal : (c : ℕ) → is_shell_safe c ≡ true → is_literal c ≡ true
unfolding is_shell_safe is_word is_literal
safe-literal c h = ground arith

words-safe :
    (cur s rest : Text)
    → all is_shell_safe s ≡ true
    → words_from bare cur (s ++ rest) ≡ words_from bare (cur ++ s) rest
unfolding words_from
words-safe cur [] rest h = rw (append-nil cur)
words-safe cur (c ∷ s) rest h =
    let (one, more) = and_parts (is_shell_safe c) (all is_shell_safe s) h in
    let (a, b, d) = safe_facts c one in
    rw (a, b, d, safe-literal c one)
      (words-safe (cur ++ c ∷ []) s rest more
        ∙ ap (λ t. words_from bare t rest) (append_assoc cur (c ∷ []) s))

words-escape_quotes :
    (cur s rest : Text)
    → words_from quoted cur (escape_quotes s ++ 39 ∷ rest) ≡ words_from bare (cur ++ s) rest
unfolding words_from escape_quotes
words-escape_quotes cur [] rest = rw (append-nil cur)
words-escape_quotes cur (c ∷ s) rest = elim (Bool-cases (c == 39)) [
  | inl q ↦ rw q (
      words-escape_quotes (cur ++ 39 ∷ []) s rest
      ∙ ap (λ t. words_from bare t rest)
          (append_assoc cur (39 ∷ []) s ∙ ap (λ d. cur ++ d ∷ s) (sym ((==_iff c 39).0 q))))
  | inr other ↦
      rw (other, words_from, other)
        (words-escape_quotes (cur ++ c ∷ []) s rest
          ∙ ap (λ t. words_from bare t rest) (append_assoc cur (c ∷ []) s))
]

plus-safe :
    (s : Text) → full_match (plus is_shell_safe) s ≡ true → (s ≢ []) × (all is_shell_safe s ≡ true)
unfolding full_match plus
plus-safe [] h = cc
plus-safe (c ∷ s) h = ((λ e. cc), sym (plus-null is_shell_safe c s) ∙ h)

words-shell_arg_safe :
    (s rest : Text)
    → s ≢ []
    → all is_shell_safe s ≡ true
    → words_from gap [] (s ++ rest) ≡ words_from bare s rest
unfolding words_from
words-shell_arg_safe [] rest ne h = absurd (ne refl)
words-shell_arg_safe (c ∷ s) rest ne h =
    let (one, more) = and_parts (is_shell_safe c) (all is_shell_safe s) h in
    let (a, b, d) = safe_facts c one in
    rw (a, b, d, safe-literal c one) (words-safe (c ∷ []) s rest more)

words-quoted_arg :
    (s rest : Text)
    → words_from gap [] (39 ∷ ((escape_quotes s ++ 39 ∷ []) ++ rest)) ≡ words_from bare s rest
unfolding words_from
words-quoted_arg s rest =
    rw (append_assoc (escape_quotes s) (39 ∷ []) rest) (words-escape_quotes [] s rest)

-- Between words, the argument is read as one word, whatever it holds.
words-shell_arg : (s rest : Text) → words_from gap [] (shell_arg s ++ rest) ≡ words_from bare s rest
unfolding shell_arg
words-shell_arg s rest = elim (Bool-cases (full_match (plus is_shell_safe) s)) [
  | inl safe ↦
      let (ne, all_safe) = plus-safe s safe in rw safe (words-shell_arg_safe s rest ne all_safe)
  | inr other ↦ rw other (words-quoted_arg s rest)
]

-- A shell reads the arguments that `shellArg` quotes, joined by spaces, as just these words,
-- whatever characters they hold; none of the characters that mean more to it stands unquoted.
pub words-join-shell_arg :
    (args : List Text) → words (join (32 ∷ []) (map shell_arg args)) ≡ some args
unfolding words join words_from
words-join-shell_arg [] = refl
words-join-shell_arg (s ∷ []) =
    ap (words_from gap []) (sym (append-nil (shell_arg s))) ∙ words-shell_arg s []
words-join-shell_arg (s ∷ t ∷ args) =
    words-shell_arg s (32 ∷ join (32 ∷ []) (map shell_arg (t ∷ args)))
    ∙ ap (cons_word s) (words-join-shell_arg (t ∷ args))
