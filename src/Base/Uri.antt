-- ===== src/Base/Uri.antt =====
-- `encodeURIComponent` and the serializer of `URLSearchParams`, over UTF-8.
use Prim.Native.Nat.{ℕ, ◌+◌, ◌/◌, ◌%◌}
use mathlib.Core.Path.{◌≡◌, refl}
use mathlib.Core.Bool.{Bool, true, ◌||◌}
use mathlib.Core.List.{List, [], ◌∷◌, ◌++◌, map}
use native.Mathlib.Omega.{arith}
use mathlib.Core.Logic.{inl, inr}
use Prim.Native.Nat.{◌<◌}
use mesh2mesh.Base.Tests.{Bool-cases, and_parts, ltb, ◌==◌, if◌then◌else◌}
use mesh2mesh.Base.Lists.{all}
use mesh2mesh.Base.Strings.{is_visible, Text, lit, is_digit, is_letter, is_word, join}

abbrev hex_digit : ℕ → ℕ
hex_digit n = if ltb n 10 then b'0' + n else b'7' + n

abbrev percent : ℕ → Text
percent b = b'%' ∷ hex_digit (b / 16) ∷ hex_digit (b % 16) ∷ []

-- The UTF-8 bytes of a code point, each written `%XX`.
unfoldable pub percent_utf8 : ℕ → Text
percent_utf8 c =
    if ltb c 0x80
    then percent c
    else if ltb c 0x800
    then percent (0xc0 + c / 64) ++ percent (0x80 + c % 64)
    else if ltb c 0x10000
    then percent (0xe0 + c / 4096) ++ percent (0x80 + c / 64 % 64) ++ percent (0x80 + c % 64)
    else percent (0xf0 + c / 262144)
      ++ percent (0x80 + c / 4096 % 64)
      ++ percent (0x80 + c / 64 % 64)
      ++ percent (0x80 + c % 64)

-- What `encodeURIComponent` leaves as it is.
unfoldable pub is_unreserved : ℕ → Bool
unfolding is_digit is_letter
is_unreserved c =
    is_letter c
    || is_digit c
    || c == b'-'
    || c == b'_'
    || c == b'.'
    || c == b'!'
    || c == b'~'
    || c == b'*'
    || c == 39
    || c == b'('
    || c == b')'

unfoldable pub encode_uri_component : Text → Text
encode_uri_component [] = []
encode_uri_component (c ∷ s) =
    (if is_unreserved c then c ∷ [] else percent_utf8 c) ++ encode_uri_component s

-- `application/x-www-form-urlencoded`
abbrev is_form_safe : ℕ → Bool
is_form_safe c = is_word c || c == b'*' || c == b'-' || c == b'.'

unfoldable pub encode_form : Text → Text
encode_form [] = []
encode_form (c ∷ s) =
    (if is_form_safe c then c ∷ [] else if c == 32 then b'+' ∷ [] else percent_utf8 c)
    ++ encode_form s

abbrev form_pair : Text × Text → Text
form_pair (k, v) = encode_form k ++ b'=' ∷ encode_form v

-- `new URLSearchParams(ps).toString()`
unfoldable pub search_params : List (Text × Text) → Text
search_params ps = join (b'&' ∷ []) (map form_pair ps)

pub encode_uri_component_plain :
    (s : Text) → all is_unreserved s ≡ true → encode_uri_component s ≡ s
unfolding encode_uri_component
encode_uri_component_plain [] h = refl
encode_uri_component_plain (c ∷ s) h = ground (arith, encode_uri_component_plain s)

encode_uri_component_test : encode_uri_component (lit "a b@é") ≡ lit "a%20b%40%C3%A9"
unfolding encode_uri_component lit is_unreserved percent_utf8
encode_uri_component_test = refl

all-join : (p : ℕ → Bool) (s t : Text) → all p s ≡ true → all p t ≡ true → all p (s ++ t) ≡ true
all-join p [] t h k = k
all-join p (c ∷ s) t h k = ground (arith, all-join p s t)

hex_digit-visible : (n : ℕ) → n < 16 → is_visible (hex_digit n) ≡ true
hex_digit-visible n h = ground arith

percent-visible : (b : ℕ) → b < 256 → all is_visible (percent b) ≡ true
percent-visible b h =
    let high = hex_digit-visible (b / 16) (omega (arith, h)) in
    let low = hex_digit-visible (b % 16) (omega arith) in rw (high, low) refl

percent-then :
    (b : ℕ) (t : Text) → b < 256 → all is_visible t ≡ true → all is_visible (percent b ++ t) ≡ true
percent-then b t h k = all-join is_visible (percent b) t (percent-visible b h) k

percent_utf8-visible : (c : ℕ) → c < 1114112 → all is_visible (percent_utf8 c) ≡ true
unfolding percent_utf8
percent_utf8-visible c h =
    let last = percent (0x80 + c % 64) in
    let last_two = percent (0x80 + c / 64 % 64) ++ last in
    let end = percent-visible (0x80 + c % 64) (omega arith) in
    let end_two = percent-then (0x80 + c / 64 % 64) last (omega arith) end in
    elim (Bool-cases (ltb c 0x80)) [
      | inl one ↦ rw one (percent-visible c (ground arith))
      | inr many ↦ elim (Bool-cases (ltb c 0x800)) [
        | inl two ↦ rw (many, two) (percent-then (0xc0 + c / 64) last (ground arith) end)
        | inr more ↦ elim (Bool-cases (ltb c 0x10000)) [
          | inl three ↦
              rw (many, more, three)
                (percent-then (0xe0 + c / 4096) last_two (ground arith) end_two)
          | inr four ↦
              rw (many, more, four)
                (percent-then (0xf0 + c / 262144) (percent (0x80 + c / 4096 % 64) ++ last_two)
                  (omega (arith, h))
                  (percent-then (0x80 + c / 4096 % 64) last_two (omega arith) end_two))
        ]
      ]
    ]

unreserved-visible : (c : ℕ) → is_unreserved c ≡ true → is_visible c ≡ true
unfolding is_unreserved is_letter is_digit
unreserved-visible c h = ground arith

pub encode_uri_component-visible :
    (s : Text) → all (λ c. ltb c 1114112) s ≡ true → all is_visible (encode_uri_component s) ≡ true
unfolding encode_uri_component
encode_uri_component-visible [] h = refl
encode_uri_component-visible (c ∷ s) h =
    let (one, more) = and_parts (ltb c 1114112) (all (λ c. ltb c 1114112) s) h in
    let rest = encode_uri_component-visible s more in
    elim (Bool-cases (is_unreserved c)) [
      | inl plain ↦ rw plain (
          all-join is_visible (c ∷ []) (encode_uri_component s)
            (rw (unreserved-visible c plain) refl) rest)
      | inr other ↦ rw other (
          all-join is_visible (percent_utf8 c) (encode_uri_component s)
            (percent_utf8-visible c (ground arith)) rest)
    ]
