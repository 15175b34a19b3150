-- ===== src/Backend/Cookies.antt =====
-- The cookies of web/src/backend/oidc.mjs: `readCookie` and `cookie`.
pub mod RoundTrip
use mesh2mesh.Base.{
  null, Text, lit, text_eq, trim, split, cut, show, if◌then◌else◌, ◌or◌, ℕ, Bool, not, ◌&&◌, Option,
  none, some, List, [], ◌∷◌, ◌++◌,
}

-- One round of the loop of `readCookie`: the value, if this part has the name. `indexOf("=")`
-- is above 0 if there is a "=" and something before it.
unfoldable pub cookie_part : Text → Text → Option Text
cookie_part name part = elim (cut b'=' part) [
  | none ↦ none
  | some (a, b) ↦ if not (null a) && text_eq (trim a) name then some (trim b) else none
]

unfoldable pub find_part : Text → List Text → Option Text
unfolding cookie_part
find_part name [] = none
find_part name (part ∷ parts) = elim (cookie_part name part) [
  | none ↦ find_part name parts
  | some v ↦ some v
]

-- `readCookie(req, name)`, on the header `req.headers.cookie`.
unfoldable pub read_cookie : Option Text → Text → Option Text
unfolding find_part
read_cookie header name = find_part name (split b';' (header or []))

-- `cookie(name, value, { path, maxAge, secure })`, with the age in whole seconds.
pub cookie : (name value path : Text) (max_age : ℕ) (secure : Bool) → Text
cookie name value path max_age secure =
    name
    ++ b'='
      ∷ (value
          ++ lit "; Path="
          ++ path
          ++ lit "; Max-Age="
          ++ show max_age
          ++ lit "; HttpOnly; SameSite=Lax"
          ++ (if secure then lit "; Secure" else []))
