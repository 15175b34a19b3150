-- ===== src/Backend/Proxy/Patterns.antt =====
-- What the patterns of web/src/backend/proxy.mjs match.
use mesh2mesh.Backend.Proxy.{is_hex_or_dash, tenant}
use mesh2mesh.Base.{
  length, null, all, word, times, plus, word-append, word-splits, times-append, times-splits,
  plus-null, Text, lit, Bool-cases, ℕ, ◌≡◌, refl, sym, ap, ◌∙◌, subst, ◌≢◌, ◌⊎◌, inl, inr, Bool,
  true, ◌||◌, [], ◌∷◌, ◌++◌, append-nil,
}

abbrev pub IsTenantId : Text → Type 0
IsTenantId id = (length id ≡ 36) × (all is_hex_or_dash id ≡ true)

abbrev pub tenant_path : Text → Text → Text
tenant_path id rest = lit "/v1/me/tenants/" ++ (id ++ rest)

pub null-eq-nil : (s : Text) → null s ≡ true → s ≡ []
null-eq-nil [] h = refl
null-eq-nil (c ∷ s) h = cc

-- `^word$`
pub word-null : (t s : Text) → word t null s ≡ true → s ≡ t
word-null t s h =
    let (r, e, k) = word-splits t s null h in e ∙ (rw (null-eq-nil r k) (append-nil t))

pub word_self : (t : Text) → word t null t ≡ true
word_self t = (ap (word t null) (sym (append-nil t))) ∙ word-append t [] null

pub tenant-splits :
    (rest : Text → Bool) (path : Text)
    → tenant rest path ≡ true
    → (id r : Text) × IsTenantId id × (path ≡ tenant_path id r) × (rest r ≡ true)
tenant-splits rest path h =
    let (s, e, more) = word-splits (lit "/v1/me/tenants/") path _ h in
    let (id, r, e', len, cs, k) = times-splits 36 is_hex_or_dash s rest more in
    (id, r, (len, cs), e ∙ ap (◌++◌ (lit "/v1/me/tenants/")) e', k)

pub tenant-tenant_path :
    (rest : Text → Bool) (id r : Text) → IsTenantId id → tenant rest (tenant_path id r) ≡ rest r
tenant-tenant_path rest id r (len, cs) =
    word-append (lit "/v1/me/tenants/") (id ++ r) (times 36 is_hex_or_dash rest)
    ∙ subst (λ n. times n is_hex_or_dash rest (id ++ r) ≡ rest r) len
        (times-append is_hex_or_dash id r rest cs)

-- `/(a|b)$`, with the slash in its own literal
pub either_word-splits :
    (a b r : Text)
    → word (lit "/") (λ s. word a null s || word b null s) r ≡ true
    → (r ≡ lit "/" ++ a) ⊎ (r ≡ lit "/" ++ b)
either_word-splits a b r h =
    let (s, e, k) = word-splits (lit "/") r _ h in
    elim (Bool-cases (word a null s)) [
      | inl first ↦ inl (e ∙ ap (◌++◌ (lit "/")) (word-null a s first))
      | inr other ↦ inr (e ∙ ap (◌++◌ (lit "/")) (word-null b s (rw other at k)))
    ]

pub slash-append :
    (lit "/" ++ lit "peers" ≡ lit "/peers")
    × (lit "/" ++ lit "members" ≡ lit "/members")
    × (lit "/" ++ lit "invites" ≡ lit "/invites")
    × (lit "/" ++ lit "claim" ≡ lit "/claim")
unfolding lit
slash-append = (refl, refl, refl, refl)

pub plus-nil : (c : ℕ → Bool) → plus c null [] ≡ true → ⊥
unfolding plus
plus-nil c h = cc

pub plus-splits : (c : ℕ → Bool) (s : Text) → plus c null s ≡ true → (s ≢ []) × (all c s ≡ true)
plus-splits c [] h = absurd (plus-nil c h)
plus-splits c (b ∷ s) h = ((λ e. cc), sym (plus-null c b s) ∙ h)

pub plus-all : (c : ℕ → Bool) (s : Text) → s ≢ [] → all c s ≡ true → plus c null s ≡ true
plus-all c [] ne h = absurd (ne refl)
plus-all c (b ∷ s) ne h = plus-null c b s ∙ h
