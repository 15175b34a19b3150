-- ===== src/Frontend/Devices/Commands.antt =====
-- What a shell reads in the commands of web/src/frontend/routes/admin/device-dialogs.tsx.
use mesh2mesh.Backend.Proxy.{is_hex_or_dash}
use mesh2mesh.Backend.Proxy.Patterns.{IsTenantId}
use mesh2mesh.Base.{
  null, all, full_match, plus, plus-null, Text, lit, is_hex, is_word, trim, join, if◌then◌else◌, ℕ,
  ◌≡◌, refl, ap, ◌∙◌, true, false, Option, none, some, List, [], ◌∷◌, ◌++◌, map, arith,
}
use mesh2mesh.Frontend.Api.{Tenant, RuntimeConfig}
use mesh2mesh.Frontend.Devices.{DeviceForm, join_parts, join_command}
use mesh2mesh.Frontend.Shell.{is_shell_safe, shell_arg}
use mesh2mesh.Frontend.Shell.Words.{words, words-join-shell_arg}

abbrev option_words : Text → Text → List Text
option_words flag value = if null value then [] else flag ∷ value ∷ []

abbrev url_of : Option RuntimeConfig → Text
url_of none = []
url_of (some c) = c.public_api_url

-- The words of a call of `meshd join`.
abbrev pub join_words : Tenant → Option RuntimeConfig → Text → List Text
join_words t config name =
    lit "sudo"
    ∷ lit "meshd"
    ∷ lit "join"
    ∷ t.id
    ∷ (option_words (lit "--api") (url_of config) ++ option_words (lit "--name") name)

abbrev value_part : Text → Text → Text
value_part flag value = if null value then [] else flag ++ shell_arg value

plain_words :
    (shell_arg (lit "sudo") ≡ lit "sudo")
    × (shell_arg (lit "meshd") ≡ lit "meshd")
    × (shell_arg (lit "join") ≡ lit "join")
    × (shell_arg (lit "--api") ≡ lit "--api")
    × (shell_arg (lit "--name") ≡ lit "--name")
unfolding lit shell_arg full_match plus is_shell_safe is_word
plain_words = (refl, refl, refl, refl, refl)

join_parts_lem :
    (id url name : Text)
    → null id ≡ false
    → shell_arg id ≡ id
    → join_parts (
        lit "sudo meshd join"
        ∷ id
        ∷ value_part (lit "--api ") url
        ∷ value_part (lit "--name ") name
        ∷ [])
      ≡ join (32 ∷ []) (
          map shell_arg (
            lit "sudo"
            ∷ lit "meshd"
            ∷ lit "join"
            ∷ id
            ∷ (option_words (lit "--api") url ++ option_words (lit "--name") name)))
unfolding join lit
join_parts_lem id [] [] h k = rw (h, k, plain_words.0, plain_words.1, plain_words.2) refl
join_parts_lem id [] (c ∷ name) h k =
    rw (h, k, plain_words.0, plain_words.1, plain_words.2, plain_words.4) refl
join_parts_lem id (d ∷ url) [] h k =
    rw (h, k, plain_words.0, plain_words.1, plain_words.2, plain_words.3) refl
join_parts_lem id (d ∷ url) (c ∷ name) h k =
    rw (h, k, plain_words.0, plain_words.1, plain_words.2, plain_words.3, plain_words.4) refl

hex_safe : (s : Text) → all is_hex_or_dash s ≡ true → all is_shell_safe s ≡ true
unfolding is_hex_or_dash is_hex is_shell_safe is_word
hex_safe [] h = refl
hex_safe (c ∷ s) h = ground (arith, hex_safe s)

shell_arg_safe : (c : ℕ) (s : Text) → all is_shell_safe (c ∷ s) ≡ true → shell_arg (c ∷ s) ≡ c ∷ s
unfolding shell_arg full_match
shell_arg_safe c s h = rw (plus-null is_shell_safe c s ∙ h) refl

plain_id : (id : Text) → IsTenantId id → (null id ≡ false) × (shell_arg id ≡ id)
plain_id [] v = ground arith
plain_id (c ∷ id) v = (refl, shell_arg_safe c id (hex_safe (c ∷ id) v.1))

-- For a tenant id of 36 hexadecimal digits and dashes, a shell reads the `meshd join` command of
-- the dialog as that id, the API's address if there is one, and the machine's name without its
-- outer spaces if there is one, each as a single word and whatever characters they hold.
pub words-join_command :
    (t : Tenant) (config : Option RuntimeConfig) (form : DeviceForm)
    → IsTenantId t.id
    → words (join_command t config form) ≡ some (join_words t config (trim form.name))
unfolding join_command
words-join_command t none form v =
    ap words (join_parts_lem t.id [] (trim form.name) (plain_id t.id v).0 (plain_id t.id v).1)
    ∙ words-join-shell_arg (join_words t none (trim form.name))
words-join_command t (some c) form v =
    ap words (
      join_parts_lem t.id c.public_api_url (trim form.name) (plain_id t.id v).0 (plain_id t.id v).1)
    ∙ words-join-shell_arg (join_words t (some c) (trim form.name))
