-- ===== src/Backend/Oidc/ReturnTo.antt =====
-- `safeReturnTo` of web/src/backend/oidc.mjs: where a login may send the browser afterwards. What a
-- browser makes of a `Location` is the part of the URL standard (basic URL parser, special schemes)
-- that decides whether a relative address leaves the site.
use mesh2mesh.Backend.Oidc.{safe_return_to}
use mesh2mesh.Base.{
  all, keep, Text, lit, starts_with, ltb, ◌==◌, if◌then◌else◌, ==_iff, Bool-cases, and_parts, ℕ,
  ◌≡◌, refl, sym, ap, ◌∙◌, subst, ◌↔◌, inl, inr, Bool, true, false, not, ◌||◌, none, some, [], ◌∷◌,
  arith,
}

-- The parser drops spaces and control characters at both ends,
abbrev is_c0_or_space : ℕ → Bool
is_c0_or_space c = ltb c 33

-- and a tab, a line feed and a carriage return anywhere.
abbrev pub is_tab_or_newline : ℕ → Bool
is_tab_or_newline c = c == 9 || c == 10 || c == 13

abbrev drop_front : Text → Text
drop_front [] = []
drop_front (c ∷ s) = if is_c0_or_space c then drop_front s else c ∷ s

abbrev drop_back : Text → Text
drop_back [] = []
drop_back (c ∷ s) = if all is_c0_or_space (c ∷ s) then [] else c ∷ drop_back s

-- A backslash counts as a slash in an address on http and https.
abbrev is_slash : ℕ → Bool
is_slash c = c == b'/' || c == b'\\'

pub data Lands : Type 0 where
  on_site elsewhere not_a_path : Lands

-- One slash begins a path of the same site, two begin the name of a host.
abbrev lands_clean : Text → Lands
lands_clean [] = not_a_path
lands_clean (c ∷ []) = if is_slash c then on_site else not_a_path
lands_clean (c ∷ d ∷ s) =
    if not (is_slash c) then not_a_path else if is_slash d then elsewhere else on_site

-- Where a browser goes that is sent to an address.
unfoldable pub leads_to : Text → Lands
leads_to s = lands_clean (keep (λ c. not (is_tab_or_newline c)) (drop_back (drop_front s)))

plain_head :
    (c : ℕ) (s : Text)
    → all (λ c. not (is_tab_or_newline c)) (c ∷ s) ≡ true
    → (is_tab_or_newline c ≡ false) × (all (λ c. not (is_tab_or_newline c)) s ≡ true)
plain_head c s h = ground arith

-- An address that begins with a slash and has neither tabs nor newlines
leads_to-slash :
    (c : ℕ) (s : Text)
    → is_tab_or_newline c ≡ false
    → leads_to (b'/' ∷ c ∷ s) ≡ (if is_slash c then elsewhere else on_site)
unfolding leads_to
leads_to-slash c s h = elim (Bool-cases (all is_c0_or_space (c ∷ s))) [
  | inl blank ↦
      let (low, more) = and_parts (is_c0_or_space c) (all is_c0_or_space s) blank in
      let path : is_slash c ≡ false = ground arith in rw (blank, path) refl
  | inr holds ↦ rw (holds, h) refl
]

safe_return_to_slash :
    (d : ℕ) (s : Text)
    → safe_return_to (some (b'/' ∷ d ∷ s)) ≡ (if is_slash d then lit "/admin" else b'/' ∷ d ∷ s)
unfolding safe_return_to
safe_return_to_slash d s = ground arith

safe_return_to_other :
    (c : ℕ) (s : Text) → (c == b'/') ≡ false → safe_return_to (some (c ∷ s)) ≡ lit "/admin"
unfolding safe_return_to
safe_return_to_other c s h = ground arith

leads_to-admin : leads_to (lit "/admin") ≡ on_site
unfolding leads_to lit
leads_to-admin = refl

leads_to-root : leads_to (b'/' ∷ []) ≡ on_site
unfolding leads_to
leads_to-root = refl

abbrev pub IsPath : Text → Type 0
IsPath raw = (starts_with (b'/' ∷ []) raw ≡ true) × (leads_to raw ≡ on_site)

alone_kept : safe_return_to (some (b'/' ∷ [])) ≡ b'/' ∷ []
unfolding safe_return_to
alone_kept = refl

admin_differs : (d : ℕ) (s : Text) → is_slash d ≡ true → lit "/admin" ≡ b'/' ∷ d ∷ s → ⊥
unfolding lit
admin_differs d s h e = ground arith

admin_begins : (c : ℕ) (s : Text) → (c == b'/') ≡ false → lit "/admin" ≡ c ∷ s → ⊥
unfolding lit
admin_begins c s h e = ground arith

empty_replaced : safe_return_to (some []) ≡ lit "/admin"
unfolding safe_return_to
empty_replaced = refl

none_replaced : safe_return_to none ≡ lit "/admin"
unfolding safe_return_to
none_replaced = refl

admin_not_empty : lit "/admin" ≡ [] → ⊥
unfolding lit
admin_not_empty e = cc

-- What is kept, for an address that begins with a slash
kept-slash :
    (s : Text)
    → all (λ c. not (is_tab_or_newline c)) s ≡ true
    → (leads_to (safe_return_to (some (b'/' ∷ s))) ≡ on_site)
      × ((safe_return_to (some (b'/' ∷ s)) ≡ b'/' ∷ s) ↔ (leads_to (b'/' ∷ s) ≡ on_site))
kept-slash [] h = rw (alone_kept, leads_to-root) (refl, ((λ e. refl), (λ e. refl)))
kept-slash (d ∷ s) h = elim (Bool-cases (is_slash d)) [
  | inl slash ↦
      let out = safe_return_to_slash d s in
      let off = leads_to-slash d s (plain_head d s h).0 in
      rw (out, slash, leads_to-admin, off, slash)
        (refl, ((λ e. absurd (admin_differs d s slash e)), (λ e. cc)))
  | inr path ↦
      let out = safe_return_to_slash d s in
      let on = leads_to-slash d s (plain_head d s h).0 in
      rw (out, path, on, path) (refl, ((λ e. refl), (λ e. refl)))
]

abbrev Outcome : Text → Type 0
Outcome raw =
    (leads_to (safe_return_to (some raw)) ≡ on_site)
    × ((safe_return_to (some raw) ≡ raw) ↔ IsPath raw)
    × (leads_to (safe_return_to none) ≡ on_site)

slash_outcome : (s : Text) → all (λ c. not (is_tab_or_newline c)) s ≡ true → Outcome (b'/' ∷ s)
slash_outcome s h =
    let (site, kept) = kept-slash s h in
    (site, ((λ e. (refl, kept.0 e)), (λ p. kept.1 p.1)), ap leads_to none_replaced ∙ leads_to-admin)

no_slash : (c : ℕ) (s : Text) → (c == b'/') ≡ false → starts_with (b'/' ∷ []) (c ∷ s) ≡ true → ⊥
no_slash c s h k = ground arith

-- Where a link carries a `returnTo` without a tab, a line feed or a carriage return, a browser that
-- is sent to what the login keeps of it stays on this site; the text is kept as it is exactly if it
-- begins with a slash and a browser that is sent to it stays on this site; and without a `returnTo`
-- the login ends on this site too.
pub leads_to-safe_return_to :
    (raw : Text)
    → all (λ c. not (is_tab_or_newline c)) raw ≡ true
    → (leads_to (safe_return_to (some raw)) ≡ on_site)
      × ((safe_return_to (some raw) ≡ raw) ↔ IsPath raw)
      × (leads_to (safe_return_to none) ≡ on_site)
leads_to-safe_return_to [] h =
    rw (empty_replaced, none_replaced, leads_to-admin)
      (refl, ((λ e. absurd (admin_not_empty e)), (λ p. cc)), refl)
leads_to-safe_return_to (c ∷ s) h = elim (Bool-cases (c == b'/')) [
  | inl slash ↦
      subst (λ d. Outcome (d ∷ s)) (sym ((==_iff c b'/').0 slash))
        (slash_outcome s (plain_head c s h).1)
  | inr other ↦
      rw (safe_return_to_other c s other, none_replaced, leads_to-admin)
        (
          refl,
          ((λ e. absurd (admin_begins c s other e)), (λ p. absurd (no_slash c s other p.0))),
          refl,
        )
]
