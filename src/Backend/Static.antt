-- ===== src/Backend/Static.antt =====
-- web/src/backend/static.mjs: the files of the built UI.
pub mod Confined
use mesh2mesh.Backend.Http.{content_type, cache_control, plain, raw_bytes, Response, send}
use mesh2mesh.Backend.Oidc.{Outcome, responds, throws}
use mesh2mesh.Base.{
  null, get, Text, lit, text_eq, starts_with, if◌then◌else◌, ◌or◌, ℕ, not, ◌&&◌, Option, none, some,
  List, [], ◌∷◌,
}

-- The functions of `node:path`, `decodeURIComponent` (`none` where it throws) and the file
-- system, and the directory of the build.
pub record Files : Type 0 where
  pub dist_dir : Text
  pub join_path : Text → Text → Text
  pub normalize : Text → Text
  pub extname : Text → Text
  pub decode_uri_component : Text → Option Text
  pub read_file : Text → Option (List ℕ)

unfoldable pub content_type_of : Text → Option Text
content_type_of ext = get ext (
    (lit ".html", lit "text/html; charset=utf-8")
    ∷ (lit ".js", lit "text/javascript; charset=utf-8")
    ∷ (lit ".css", lit "text/css; charset=utf-8")
    ∷ (lit ".svg", lit "image/svg+xml")
    ∷ (lit ".png", lit "image/png")
    ∷ (lit ".ico", lit "image/x-icon")
    ∷ (lit ".json", lit "application/json")
    ∷ (lit ".woff2", lit "font/woff2")
    ∷ [])

abbrev pub not_found : Response
not_found = send 404 (plain (lit "not found")) ((content_type, lit "text/plain" ∷ []) ∷ [])

module _ (fs : Files) where
  abbrev pub index_file : Text
  index_file = fs.join_path fs.dist_dir (lit "index.html")

  abbrev serve_file : Text → Text → List ℕ → Response
  serve_file path ext bytes = send 200 (raw_bytes bytes) (
      (content_type, (content_type_of ext or lit "application/octet-stream") ∷ [])
      ∷ (
        cache_control,
        (if starts_with (lit "/assets/") path
              then lit "public, max-age=31536000, immutable"
              else lit "no-cache")
            ∷ [],
      )
      ∷ [])

  abbrev serve_index : Option (List ℕ) → Outcome
  serve_index none = throws
  serve_index (some bytes) = responds (
      send 200 (raw_bytes bytes) (
        (content_type, (content_type_of (lit ".html") or []) ∷ [])
        ∷ (cache_control, lit "no-cache" ∷ [])
        ∷ []))

  -- The `catch`: client-side routes fall back to index.html, other missing files do not.
  missing : Text → Outcome
  missing ext =
      if not (null ext) && not (text_eq ext (lit ".html"))
      then responds not_found
      else serve_index (fs.read_file index_file)

  unfoldable pub serve_read : Text → Text → Option (List ℕ) → Outcome
  unfolding missing
  serve_read path ext none = missing ext
  serve_read path ext (some bytes) = responds (serve_file path ext bytes)

  abbrev pub file_of : Text → Text
  file_of decoded = fs.join_path fs.dist_dir (fs.normalize decoded)

  unfoldable pub serve_decoded : Text → Option Text → Outcome
  unfolding serve_read
  serve_decoded path none = throws
  serve_decoded path (some decoded) =
      if not (starts_with fs.dist_dir (file_of decoded))
      then responds not_found
      else serve_read path (fs.extname (file_of decoded)) (fs.read_file (file_of decoded))

  -- `serveStatic(res, path)`
  unfoldable pub serve_static : Text → Outcome
  unfolding serve_decoded
  serve_static path = serve_decoded path (fs.decode_uri_component path)
