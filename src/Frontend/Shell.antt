-- ===== src/Frontend/Shell.antt =====
-- web/src/frontend/lib/shell.ts: quoting an argument for a shell.
pub mod Words
use mesh2mesh.Base.{
  full_match, plus, Text, is_word, ◌==◌, if◌then◌else◌, ℕ, Bool, ◌||◌, [], ◌∷◌, ◌++◌,
}

-- `[\w@%+=:,./-]`
unfoldable pub is_shell_safe : ℕ → Bool
is_shell_safe c =
    is_word c
    || c == b'@'
    || c == b'%'
    || c == b'+'
    || c == b'='
    || c == b':'
    || c == b','
    || c == b'.'
    || c == b'/'
    || c == b'-'

-- `s.replaceAll("'", "'\\''")`
pub escape_quotes : Text → Text
escape_quotes [] = []
escape_quotes (c ∷ s) = if c == 39 then 39 ∷ 92 ∷ 39 ∷ 39 ∷ escape_quotes s else c ∷ escape_quotes s

unfoldable pub shell_arg : Text → Text
shell_arg s = if full_match (plus is_shell_safe) s then s else 39 ∷ (escape_quotes s ++ 39 ∷ [])
