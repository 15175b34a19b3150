-- ===== src/Backend/Http/Body.antt =====
-- `readBody` of web/src/backend/http.mjs: the limit on a request's body.
use mesh2mesh.Backend.Http.{max_body_bytes, concat_chunks, read_chunks, read_body}
use mesh2mesh.Base.{
  length, length-append, leb, if◌then◌else◌, ℕ, ◌+◌, ◌≤◌, ◌≡◌, refl, none, some, List, [], ◌∷◌,
  ◌++◌, append_assoc, append-nil, arith,
}

concat_chunks-append :
    (xs ys : List (List ℕ)) → concat_chunks (xs ++ ys) ≡ concat_chunks xs ++ concat_chunks ys
concat_chunks-append [] ys = refl
concat_chunks-append (x ∷ xs) ys = simp (concat_chunks-append xs ys, append_assoc)

-- What the loop returns, from any size and any chunks kept so far.
read_chunks_lem :
    (size : ℕ) (kept chunks : List (List ℕ))
    → size ≤ max_body_bytes
    → read_chunks size kept chunks ≡ (
        if leb (size + length (concat_chunks chunks)) max_body_bytes
        then some (concat_chunks (kept ++ chunks))
        else none)
unfolding read_chunks
read_chunks_lem size kept [] h = ground (arith, append-nil kept)
read_chunks_lem size kept (c ∷ cs) h = ground (
  arith,
  read_chunks_lem (size + length c) (kept ++ c ∷ []) cs,
  append_assoc kept (c ∷ []) cs,
  length-append c (concat_chunks cs),
)

-- A body is read whole, its chunks joined in order, exactly when it has at most 65536 bytes in
-- all; a longer one is an error.
pub read_body_lem :
    (chunks : List (List ℕ))
    → read_body chunks ≡ (
        if leb (length (concat_chunks chunks)) max_body_bytes
        then some (concat_chunks chunks)
        else none)
unfolding read_body
read_body_lem chunks = ground (arith, read_chunks_lem 0 [] chunks)
