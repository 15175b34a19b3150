-- ===== src/Backend/Static/Confined.antt =====
-- Which files web/src/backend/static.mjs serves.
use mesh2mesh.Backend.Http.{raw_bytes, Response, send}
use mesh2mesh.Backend.Oidc.{responds}
use mesh2mesh.Backend.Static.{
  Files, not_found, index_file, serve_index, serve_read, file_of, serve_decoded, serve_static,
}
use mesh2mesh.Base.{
  null, Text, lit, text_eq, starts_with, Bool-cases, ℕ, ◌≡◌, refl, inl, inr, true, not, ◌&&◌,
  Option, none, some, List, arith,
}

-- A file of the build, with its content.
pub record IsBuilt (fs : Files) (bytes : List ℕ) : Type 0 where
  pub file : Text
  pub in_dist : starts_with fs.dist_dir file ≡ true
  pub content : fs.read_file file ≡ some bytes

not_found-raw :
    (r : Response) (bytes : List ℕ) → responds not_found ≡ responds r → r.body ≡ raw_bytes bytes → ⊥
unfolding send
not_found-raw r bytes h b = ground arith

module _ (fs : Files) where
  -- `join(distDir, "index.html")` lies in `distDir`.
  abbrev pub JoinsIndex : Type 0
  JoinsIndex = starts_with fs.dist_dir (index_file fs) ≡ true

  serve_index-IsBuilt :
      (o : Option (List ℕ)) (r : Response) (bytes : List ℕ)
      → JoinsIndex
      → fs.read_file (index_file fs) ≡ o
      → serve_index fs o ≡ responds r
      → r.body ≡ raw_bytes bytes
      → IsBuilt fs bytes
  unfolding send
  serve_index-IsBuilt none r bytes j e h b = ground arith
  serve_index-IsBuilt (some c) r bytes j e h b = record {
    file = index_file fs;
    in_dist = j;
    content = ground arith;
  }

  serve_read-IsBuilt :
      (path ext : Text) (decoded : Text) (o : Option (List ℕ)) (r : Response) (bytes : List ℕ)
      → JoinsIndex
      → starts_with fs.dist_dir (file_of fs decoded) ≡ true
      → fs.read_file (file_of fs decoded) ≡ o
      → serve_read fs path ext o ≡ responds r
      → r.body ≡ raw_bytes bytes
      → IsBuilt fs bytes
  unfolding serve_read send
  serve_read-IsBuilt path ext decoded none r bytes j i e h b =
      elim (Bool-cases (not (null ext) && not (text_eq ext (lit ".html")))) [
        | inl asset ↦ absurd (not_found-raw r bytes (rw asset at h) b)
        | inr page ↦ serve_index-IsBuilt _ r bytes j refl (rw page at h) b
      ]
  serve_read-IsBuilt path ext decoded (some c) r bytes j i e h b = record {
    file = file_of fs decoded;
    in_dist = i;
    content = ground arith;
  }

  serve_decoded-IsBuilt :
      (path : Text) (o : Option Text) (r : Response) (bytes : List ℕ)
      → JoinsIndex
      → serve_decoded fs path o ≡ responds r
      → r.body ≡ raw_bytes bytes
      → IsBuilt fs bytes
  unfolding serve_decoded send
  serve_decoded-IsBuilt path none r bytes j h b = ground arith
  serve_decoded-IsBuilt path (some decoded) r bytes j h b =
      elim (Bool-cases (starts_with fs.dist_dir (file_of fs decoded))) [
        | inl inside ↦ serve_read-IsBuilt path _ decoded _ r bytes j inside refl (rw inside at h) b
        | inr outside ↦ absurd (not_found-raw r bytes (rw outside at h) b)
      ]

  -- Whatever path is asked for, what is sent of a file is the content of a file whose name, after
  -- it was decoded, normalized and joined, begins with the directory of the build, where the
  -- joined name of index.html does.
  pub serve_static-IsBuilt :
      (path : Text) (r : Response) (bytes : List ℕ)
      → JoinsIndex
      → serve_static fs path ≡ responds r
      → r.body ≡ raw_bytes bytes
      → IsBuilt fs bytes
  unfolding serve_static
  serve_static-IsBuilt path r bytes j h b =
      serve_decoded-IsBuilt path (fs.decode_uri_component path) r bytes j h b
