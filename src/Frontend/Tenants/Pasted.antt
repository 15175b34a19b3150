-- ===== src/Frontend/Tenants/Pasted.antt =====
-- The text that a user pastes into the join dialog of web/src/frontend/routes/admin/tenants.tsx.
use mesh2mesh.Base.{
  null, all, Text, lit, ◌==◌, and_parts, ℕ, ◌≡◌, refl, sym, ap, ◌∙◌, subst, Bool, true, false, not,
  some, [], ◌∷◌, ◌++◌, append_assoc, arith,
}
use mesh2mesh.Frontend.Api.{Invite, accept_invite}
use mesh2mesh.Frontend.Hooks.{idle}
use mesh2mesh.Frontend.Members.{invite_link}
use mesh2mesh.Frontend.Tenants.{is_code_char, take_while, is_invite_here, find_invite, join_call}

abbrev no_underscore : Text → Bool
no_underscore = all (λ c. not (c == b'_'))

not_here :
    (c : ℕ) (pre rest : Text)
    → no_underscore (c ∷ pre) ≡ true
    → is_invite_here (c ∷ (pre ++ (lit "m2mi_" ++ rest))) ≡ false
unfolding lit
not_here c [] rest h = ground arith
not_here c (c1 ∷ []) rest h = ground arith
not_here c (c1 ∷ c2 ∷ []) rest h = ground arith
not_here c (c1 ∷ c2 ∷ c3 ∷ []) rest h = ground arith
not_here c (c1 ∷ c2 ∷ c3 ∷ c4 ∷ pre) rest h = ground arith

take_while-all : (p : ℕ → Bool) (s : Text) → all p s ≡ true → take_while p s ≡ s
take_while-all p [] h = refl
take_while-all p (c ∷ s) h = ground (arith, take_while-all p s)

-- The codes that the control plane gives out.
abbrev pub IsInviteCode : Text → Type 0
IsInviteCode code =
    (rest : Text) × (code ≡ lit "m2mi_" ++ rest)
    × (null rest ≡ false)
    × (all is_code_char rest ≡ true)

find_invite_code :
    (rest : Text)
    → null rest ≡ false
    → all is_code_char rest ≡ true
    → find_invite (lit "m2mi_" ++ rest) ≡ some (lit "m2mi_" ++ rest)
unfolding find_invite lit
find_invite_code rest ne h = rw (take_while-all is_code_char rest h, ne) refl

find_invite_after :
    (pre rest : Text)
    → no_underscore pre ≡ true
    → null rest ≡ false
    → all is_code_char rest ≡ true
    → find_invite (pre ++ (lit "m2mi_" ++ rest)) ≡ some (lit "m2mi_" ++ rest)
unfolding find_invite
find_invite_after [] rest h ne cs = find_invite_code rest ne cs
find_invite_after (c ∷ pre) rest h ne cs =
    rw (not_here c pre rest h) (find_invite_after pre rest ((and_parts _ _ h).1) ne cs)

path_underscore :
    (origin : Text) → no_underscore origin ≡ true → no_underscore (origin ++ lit "/invite/") ≡ true
unfolding lit
path_underscore [] h = refl
path_underscore (c ∷ s) h = ground (arith, path_underscore s)

find_in_link :
    (origin rest : Text)
    → no_underscore origin ≡ true
    → null rest ≡ false
    → all is_code_char rest ≡ true
    → find_invite (origin ++ (lit "/invite/" ++ (lit "m2mi_" ++ rest))) ≡ some (lit "m2mi_" ++ rest)
find_in_link origin rest h ne cs =
    ap find_invite (sym (append_assoc origin (lit "/invite/") (lit "m2mi_" ++ rest)))
    ∙ find_invite_after (origin ++ lit "/invite/") rest (path_underscore origin h) ne cs

-- The link that the members page makes of an invite, pasted into the join dialog, accepts just
-- that invite, at an origin without "_" and for a code of "m2mi_" with letters, digits, "_" and
-- "-" after it.
pub join_call-invite_link :
    (origin : Text) (i : Invite)
    → all (λ c. not (c == b'_')) origin ≡ true
    → IsInviteCode i.code
    → join_call (invite_link origin i) idle ≡ some (accept_invite i.code)
unfolding join_call invite_link
join_call-invite_link origin i h (rest, e, ne, cs) =
    let link = origin ++ (lit "/invite/" ++ i.code) in
    let found : find_invite link ≡ some i.code =
      subst (λ c. find_invite (origin ++ (lit "/invite/" ++ c)) ≡ some c) (sym e)
        (find_in_link origin rest h ne cs) in
    rw found refl
