-- ===== src/Backend/Http.antt =====
-- web/src/backend/http.mjs, with the requests and responses that the handlers exchange. Each
-- handler writes one head and one body, so a response is a value.
pub mod Body
use mesh2mesh.Base.{
  length, Store, Text, lit, ltb, if◌then◌else◌, ℕ, ◌+◌, Bool, Option, none, some, List, [], ◌∷◌,
  ◌++◌,
}

pub data Header : Type 0 where
  content_security_policy content_type_options referrer_policy : Header
  content_type cache_control allow location set_cookie : Header

-- A header with the values of its lines: `Set-Cookie` may have several.
abbrev pub Headers : Type 0
Headers = List (Header × List Text)

pub record User : Type 0 where
  pub sub : Text
  pub name : Text
  pub email : Option Text
  pub username : Option Text

-- The values that the server itself sends through `JSON.stringify`.
pub data Json : Type 0 where
  null_json : Json
  error_json : Text → Json
  user_json : User → Json
  config_json : (public_api_url : Text) (auth_enabled : Bool) → Json
  status_json : Text → Json

pub data Payload : Type 0 where
  empty : Payload
  plain : Text → Payload
  json : Json → Payload
  raw_bytes : List ℕ → Payload

pub record Response : Type 0 where
  pub status : ℕ
  pub headers : Headers
  pub body : Payload

-- The parsed request; a header that is absent is `none`, the body is its chunks.
pub record Request : Type 0 where
  pub method : Text
  pub path : Text
  pub query : Store Text
  pub cookie : Option Text
  pub origin : Option Text
  pub chunks : List (List ℕ)

abbrev pub security_headers : Headers
security_headers =
    (
      content_security_policy,
      lit
            "default-src 'self'; style-src 'self' 'unsafe-inline'; img-src 'self' data:; frame-ancestors 'none'"
          ∷ [],
    )
    ∷ (content_type_options, lit "nosniff" ∷ [])
    ∷ (referrer_policy, lit "no-referrer" ∷ [])
    ∷ []

-- The spread `{ ...securityHeaders, ...headers }`; no caller gives a security header again.
unfoldable pub send : ℕ → Payload → Headers → Response
send status body headers = record {
  status = status;
  headers = security_headers ++ headers;
  body = body;
}

unfoldable pub send_json : ℕ → Json → Response
unfolding send
send_json status body = send status (json body) ((content_type, lit "application/json" ∷ []) ∷ [])

unfoldable pub redirect : ℕ → Text → Response
redirect status target = record {
  status = status;
  headers = (location, target ∷ []) ∷ [];
  body = empty;
}

abbrev pub max_body_bytes : ℕ
max_body_bytes = 65536

abbrev pub concat_chunks : List (List ℕ) → List ℕ
concat_chunks [] = []
concat_chunks (c ∷ cs) = c ++ concat_chunks cs

-- The loop of `readBody`: the size so far and the chunks kept. `none` is the error
-- "request body too large", thrown before the rest is read.
pub read_chunks : ℕ → List (List ℕ) → List (List ℕ) → Option (List ℕ)
read_chunks size kept [] = some (concat_chunks kept)
read_chunks size kept (chunk ∷ rest) =
    let more = read_chunks (size + length chunk) (kept ++ chunk ∷ []) rest in
    if ltb max_body_bytes (size + length chunk) then none else more

pub read_body : List (List ℕ) → Option (List ℕ)
unfolding read_chunks
read_body chunks = read_chunks 0 [] chunks
