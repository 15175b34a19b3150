-- ===== src/Backend/Cookies/RoundTrip.antt =====
-- What the server reads from the `Cookie` header that a browser makes of the cookies that it got.
use mesh2mesh.Backend.Cookies.{cookie_part, find_part, read_cookie, cookie}
use mesh2mesh.Backend.Oidc.{secure}
use mesh2mesh.Base.{
  all, All, Store, get, Text, lit, text_eq, is_space, trim_start, drop_end, trim, split, cut, join,
  show, ◌==◌, if◌then◌else◌, Bool-cases, ℕ, ◌≡◌, refl, ◌≢◌, inl, inr, Bool, true, false, not, ◌&&◌,
  none, some, List, [], ◌∷◌, ◌++◌, map, append_assoc, arith,
}

-- A character that stands for itself in a cookie: no white space, no ";" and no "=".
unfoldable pub is_cookie_char : ℕ → Bool
is_cookie_char c = not (is_space c) && not (c == b';') && not (c == b'=')

abbrev pub IsClean : Text → Type 0
IsClean s = all is_cookie_char s ≡ true

-- `name=value`, and the header of a browser that holds these cookies.
abbrev pub cookie_pair : Text × Text → Text
cookie_pair (name, value) = name ++ b'=' ∷ value

pub cookie_header : Store Text → Text
cookie_header jar = join (b';' ∷ 32 ∷ []) (map cookie_pair jar)

abbrev pub IsJar : Store Text → Type 0
IsJar jar = All (λ e. (e.0 ≢ []) × IsClean e.0 × IsClean e.1) jar

trim_start_clean : (s : Text) → IsClean s → trim_start s ≡ s
unfolding is_cookie_char
trim_start_clean [] h = refl
trim_start_clean (c ∷ s) h = ground arith

drop_end_clean : (s : Text) → IsClean s → drop_end is_space s ≡ s
unfolding is_cookie_char
drop_end_clean [] h = refl
drop_end_clean (c ∷ []) h = ground arith
drop_end_clean (c ∷ d ∷ s) h = rw (drop_end_clean (d ∷ s) (ground arith))

trim_clean : (s : Text) → IsClean s → trim s ≡ s
unfolding trim
trim_clean s h = rw (trim_start_clean s h) (drop_end_clean s h)

trim_space_clean : (s : Text) → IsClean s → trim (32 ∷ s) ≡ s
unfolding trim is_space
trim_space_clean s h = rw (trim_start_clean s h) (drop_end_clean s h)

cut_clean : (s t : Text) → IsClean s → cut b'=' (s ++ b'=' ∷ t) ≡ some (s, t)
unfolding cut is_cookie_char
cut_clean [] t h = refl
cut_clean (c ∷ s) t h = ground (arith, cut_clean s t)

-- A part with the space that a browser puts before it, or without.
abbrev spaced : Bool → Text → Text
spaced true s = 32 ∷ s
spaced false s = s

cut_space_clean : (s t : Text) → IsClean s → cut b'=' (32 ∷ (s ++ b'=' ∷ t)) ≡ some (32 ∷ s, t)
unfolding cut
cut_space_clean s t h = rw (cut_clean s t h)

cookie_part_lem :
    (b : Bool) (name n v : Text)
    → n ≢ []
    → IsClean n
    → IsClean v
    → cookie_part name (spaced b (cookie_pair (n, v))) ≡ (if text_eq n name then some v else none)
unfolding cookie_part
cookie_part_lem b name [] v ne hn hv = absurd (ne refl)
cookie_part_lem false name (c ∷ n) v ne hn hv =
    rw (cut_clean (c ∷ n) v hn, cookie_part, trim_clean (c ∷ n) hn, trim_clean v hv)
cookie_part_lem true name (c ∷ n) v ne hn hv =
    rw (cut_space_clean (c ∷ n) v hn, cookie_part, trim_space_clean (c ∷ n) hn, trim_clean v hv)

abbrev HasNoSemicolon : Text → Type 0
HasNoSemicolon s = all (λ c. not (c == b';')) s ≡ true

clean-HasNoSemicolon : (s : Text) → IsClean s → HasNoSemicolon s
unfolding is_cookie_char
clean-HasNoSemicolon [] h = refl
clean-HasNoSemicolon (c ∷ s) h = ground (arith, clean-HasNoSemicolon s)

pair-HasNoSemicolon : (n v : Text) → IsClean n → IsClean v → HasNoSemicolon (cookie_pair (n, v))
unfolding is_cookie_char
pair-HasNoSemicolon [] v hn hv = clean-HasNoSemicolon v hv
pair-HasNoSemicolon (c ∷ n) v hn hv = ground (arith, pair-HasNoSemicolon n v)

split-cons : (t : Text) → (w : Text) × (ws : List Text) × (split b';' t ≡ w ∷ ws)
unfolding split
split-cons [] = ([], [], refl)
split-cons (c ∷ t) =
    let (w, ws, e) = split-cons t in
    elim (Bool-cases (c == b';')) [
      | inl sep ↦ ([], w ∷ ws, ground arith)
      | inr other ↦ (c ∷ w, ws, ground arith)
    ]

split_last : (s : Text) → HasNoSemicolon s → split b';' s ≡ s ∷ []
unfolding split
split_last [] h = refl
split_last (c ∷ s) h = ground (arith, split_last s)

split_more : (s t : Text) → HasNoSemicolon s → split b';' (s ++ b';' ∷ t) ≡ s ∷ split b';' t
unfolding split
split_more [] t h = ground (arith, (split-cons t).2)
split_more (c ∷ s) t h = ground (arith, split_more s t)

split_spaced_last : (s : Text) → HasNoSemicolon s → split b';' (32 ∷ s) ≡ (32 ∷ s) ∷ []
split_spaced_last s h = split_last (32 ∷ s) (rw h)

spaced-HasNoSemicolon : (b : Bool) (s : Text) → HasNoSemicolon s → HasNoSemicolon (spaced b s)
spaced-HasNoSemicolon true s h = rw h
spaced-HasNoSemicolon false s h = h

split-spaced :
    (b : Bool) (s t : Text)
    → HasNoSemicolon s
    → split b';' (spaced b (s ++ b';' ∷ t)) ≡ spaced b s ∷ split b';' t
split-spaced true s t h = split_more (32 ∷ s) t (rw h)
split-spaced false s t h = split_more s t h

find_part_nil : (b : Bool) (name : Text) → find_part name (split b';' (spaced b [])) ≡ none
unfolding find_part cookie_part cut split
find_part_nil true name = refl
find_part_nil false name = refl

-- The loop of `readCookie` over such a header, or over the rest of one after a ";".
find_part_lem :
    (b : Bool) (name : Text) (jar : Store Text)
    → IsJar jar
    → find_part name (split b';' (spaced b (join (b';' ∷ 32 ∷ []) (map cookie_pair jar))))
      ≡ get name jar
unfolding find_part get join
find_part_lem b name [] h = find_part_nil b name
find_part_lem b name ((n, v) ∷ []) ((ne, hn, hv), _) =
    let clean = spaced-HasNoSemicolon b (cookie_pair (n, v)) (pair-HasNoSemicolon n v hn hv) in
    rw (split_last (spaced b (cookie_pair (n, v))) clean)
      (ground (arith, cookie_part_lem b name n v ne hn hv))
find_part_lem b name ((n, v) ∷ e ∷ jar) ((ne, hn, hv), h) =
    let clean = pair-HasNoSemicolon n v hn hv in
    let rest = join (b';' ∷ 32 ∷ []) (map cookie_pair (e ∷ jar)) in
    rw (split-spaced b (cookie_pair (n, v)) (32 ∷ rest) clean)
      (ground (arith, cookie_part_lem b name n v ne hn hv, find_part_lem true name (e ∷ jar) h))

-- From the cookies of a browser, `readCookie` gives the value of the first with the name, or null
-- where none has it. Names are not empty, and names and values hold no white space, ";" or "=".
pub read_cookie-cookie_header :
    (name : Text) (jar : Store Text)
    → IsJar jar
    → read_cookie (some (cookie_header jar)) name ≡ get name jar
unfolding read_cookie cookie_header
read_cookie-cookie_header name jar h = find_part_lem false name jar h

cut_plain : (s t : Text) → HasNoSemicolon s → cut b';' (s ++ b';' ∷ t) ≡ some (s, t)
unfolding cut
cut_plain [] t h = refl
cut_plain (c ∷ s) t h = ground (arith, cut_plain s t)

lit_path : lit "; Path=" ≡ b';' ∷ lit " Path="
unfolding lit
lit_path = refl

cookie_splits :
    (name value path : Text) (max_age : ℕ) (secure : Bool)
    → (rest : Text) × (cookie name value path max_age secure
        ≡ cookie_pair (name, value) ++ b';' ∷ rest)
unfolding cookie
cookie_splits name value path max_age secure =
    let tail =
      path
      ++ lit "; Max-Age="
      ++ show max_age
      ++ lit "; HttpOnly; SameSite=Lax"
      ++ (if secure then lit "; Secure" else []) in
    (lit " Path=" ++ tail, rw lit_path (simp append_assoc))

-- A browser keeps what stands before the first ";" of a `Set-Cookie` line: of a cookie that the
-- server sets, its name and its value. Both hold no white space, ";" or "=".
cut-cookie :
    (name value path : Text) (max_age : ℕ) (secure : Bool)
    → IsClean name
    → IsClean value
    → (rest : Text) × (cut b';' (cookie name value path max_age secure)
        ≡ some (cookie_pair (name, value), rest))
cut-cookie name value path max_age secure hn hv =
    let (rest, e) = cookie_splits name value path max_age secure in
    (rest, rw e (cut_plain (cookie_pair (name, value)) rest (pair-HasNoSemicolon name value hn hv)))
