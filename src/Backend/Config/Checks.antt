-- ===== src/Backend/Config/Checks.antt =====
-- When the server of web/src/backend/config.mjs starts, and with what.
use mesh2mesh.Backend.Config.{
  Env, OidcConfig, Config, Refusal, no_token, no_issuer, Loaded, loaded, exits, blank,
  auth_is_disabled, oidc_config, config_of, load,
}
use mesh2mesh.Base.{
  null, Text, lit, text_eq_iff, Bool-cases, ◌or◌, ℕ, ◌≡◌, refl, ◌≢◌, ◌↔◌, inl, inr, true, false,
  Option, none, some, [], ◌∷◌, arith,
}

abbrev pub HasIssuer : Option OidcConfig → Type 0
HasIssuer none = Unit
HasIssuer (some cfg) = cfg.issuer ≢ []

-- A configuration with which the server runs: it has the shared token, and a login unless
-- AUTH_DISABLED is "true"; the login has an issuer.
pub record IsUsable (env : Env) (c : Config) : Type 0 where
  pub has_token : c.control_plane_token ≢ []
  pub open_iff : (c.oidc ≡ none) ↔ (env.auth_disabled ≡ some (lit "true"))
  pub has_issuer : HasIssuer c.oidc

-- Why the server does not start.
abbrev pub Lacks : Env → Refusal → Type 0
Lacks env no_token = (env.controlplane_token or []) ≡ []
Lacks env no_issuer = (env.auth_disabled ≢ some (lit "true")) × ((env.oidc_issuer or []) ≡ [])

abbrev pub Checked : Env → Loaded → Type 0
Checked env (loaded c) = IsUsable env c
Checked env (exits r) = Lacks env r

disabled_iff : (o : Option Text) → (auth_is_disabled o ≡ true) ↔ (o ≡ some (lit "true"))
disabled_iff none = ground arith
disabled_iff (some s) = ground (arith, text_eq_iff s (lit "true"))

null-nil : (s : Text) → null s ≡ true → s ≡ []
null-nil [] h = refl
null-nil (c ∷ s) h = cc

null-ne-nil : (s : Text) → null s ≡ false → s ≢ []
null-ne-nil [] h = cc
null-ne-nil (c ∷ s) h = λ e. cc

blank-nil : (o : Option Text) → blank o ≡ true → (o or []) ≡ []
blank-nil none h = refl
blank-nil (some s) h = null-nil s h

blank-ne-nil : (o : Option Text) → blank o ≡ false → (o or []) ≢ []
blank-ne-nil none h = cc
blank-ne-nil (some s) h = null-ne-nil s h

module _ (number : Text → ℕ) where
  open-IsUsable :
      (env : Env)
      → null (env.controlplane_token or []) ≡ false
      → auth_is_disabled env.auth_disabled ≡ true
      → IsUsable env (config_of number env none)
  unfolding config_of
  open-IsUsable env t d = record {
    has_token = null-ne-nil _ t;
    open_iff = ((λ _. (disabled_iff env.auth_disabled).0 d), λ _. refl);
    has_issuer = tt;
  }

  oidc-IsUsable :
      (env : Env)
      → null (env.controlplane_token or []) ≡ false
      → auth_is_disabled env.auth_disabled ≡ false
      → blank env.oidc_issuer ≡ false
      → IsUsable env (config_of number env (some (oidc_config number env)))
  unfolding config_of oidc_config
  oidc-IsUsable env t d b = record {
    has_token = null-ne-nil _ t;
    open_iff = ((λ e. cc), λ e. ground (arith, disabled_iff env.auth_disabled));
    has_issuer = blank-ne-nil env.oidc_issuer b;
  }

  -- If the server starts, it has the shared token of the control plane, it lets everybody in
  -- exactly if AUTH_DISABLED is "true", and otherwise its login has an issuer. If it exits, what
  -- its message names is missing: the token, or the issuer while AUTH_DISABLED is not "true".
  pub load-Checked : (env : Env) → Checked env (load number env)
  unfolding load
  load-Checked env = elim (Bool-cases (null (env.controlplane_token or []))) [
    | inl t ↦ rw t (null-nil _ t)
    | inr t ↦ rw t (elim (Bool-cases (auth_is_disabled env.auth_disabled)) [
      | inl d ↦ rw d (open-IsUsable env t d)
      | inr d ↦ rw d (elim (Bool-cases (blank env.oidc_issuer)) [
        | inl b ↦
            rw b
              ((λ e. ground (arith, disabled_iff env.auth_disabled)), blank-nil env.oidc_issuer b)
        | inr b ↦ rw b (oidc-IsUsable env t d b)
      ])
    ])
  ]
