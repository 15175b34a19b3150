-- ===== src/Frontend/Tenants.antt =====
-- web/src/frontend/routes/admin/tenants.tsx: the page of the user's tenants and its two dialogs.
pub mod Pasted
use mesh2mesh.Base.{
  take, drop, null, Pattern, word, times, ◌then_match◌, Text, lit, starts_with, is_hex, is_word,
  trim, join, ◌==◌, if◌then◌else◌, is_some, ℕ, Bool, true, false, not, ◌&&◌, ◌||◌, Option, none,
  some, List, [], ◌∷◌, ◌++◌, map,
}
use mesh2mesh.Frontend.Api.{
  Role, owner, member, Tenant, request, Call, create_tenant, accept_invite, claim_tenant,
  tenants_query, query_key,
}
use mesh2mesh.Frontend.Hooks.{
  Fetched, pending, query_failed, fetched, Mutation, idle, sending, refused, is_sending,
  mutation_error, Effect, invalidates, toasts, goes_to_machines,
}
use mesh2mesh.Frontend.Router.{TenantsSearch}
use mesh2mesh.Frontend.Shell.{shell_arg}

-- `setCreating` and `setJoining`: the search of the page is what says which dialog is open.
unfoldable pub set_creating : Bool → TenantsSearch
set_creating is_open = record { create = is_open; join = false }

unfoldable pub set_joining : Bool → TenantsSearch
set_joining is_open = record { create = false; join = is_open }

pub record TenantRow : Type 0 where
  pub name : Text
  pub cidr : Text
  pub short_id : Text
  pub copied_id : Text
  pub is_owner : Bool
  pub link : Effect

abbrev pub is_owner_role : Role → Bool
is_owner_role owner = true
is_owner_role member = false

pub tenant_row : Tenant → TenantRow
tenant_row t = record {
  name = t.name;
  cidr = t.cidr;
  short_id = take 8 t.id ++ lit "…";
  copied_id = t.id;
  is_owner = is_owner_role t.role;
  link = goes_to_machines (some t.id);
}

pub data TenantsView : Type 0 where
  tenants_skeleton no_tenants : TenantsView
  tenants_failed : Text → TenantsView
  tenants_table : List TenantRow → TenantsView

unfoldable pub tenants_view : Fetched (List Tenant) → TenantsView
unfolding tenant_row
tenants_view pending = tenants_skeleton
tenants_view (query_failed message earlier) = tenants_failed message
tenants_view (fetched []) = no_tenants
tenants_view (fetched ts) = tenants_table (map tenant_row ts)

-- The state of `CreateTenantDialog`.
pub record CreateDialog : Type 0 where
  pub name : Text
  pub cidr : Text
  pub request : Mutation

-- `required`, and the button's `disabled`
abbrev can_create : CreateDialog → Bool
can_create d = not (is_sending d.request || null (trim d.name))

-- `submit(e)`
unfoldable pub submit_create : CreateDialog → CreateDialog × Option Call
submit_create d =
    if can_create d
    then (
      record d { request = sending },
      some (create_tenant (trim d.name) (if null (trim d.cidr) then none else some (trim d.cidr))),
    )
    else (d, none)

-- `onSuccess`, and an error of the request.
unfoldable pub created : CreateDialog → Tenant → CreateDialog × List Effect
created d t = (
  record { name = []; cidr = []; request = idle },
  invalidates (query_key tenants_query)
      ∷ toasts (lit "Tenant " ++ (t.name ++ lit " created"))
      ∷ goes_to_machines (some t.id)
      ∷ [],
)

unfoldable pub create_failed : CreateDialog → Text → CreateDialog
create_failed d message = record d { request = refused message }

-- `create.reset()` as the dialog is closed, which keeps its inputs.
unfoldable pub close_create : CreateDialog → CreateDialog
close_create d = record d { request = idle }

abbrev name_word : Text → Text
name_word name = if null name then lit "<tenant-name>" else shell_arg name

abbrev cidr_words : Text → Text
cidr_words cidr = if null cidr then [] else lit " --cidr " ++ shell_arg cidr

-- `cli`
unfoldable pub setup_command : CreateDialog → Text
setup_command d = lit "sudo meshd setup " ++ (name_word (trim d.name) ++ cidr_words (trim d.cidr))

-- `[\w-]`
abbrev pub is_code_char : ℕ → Bool
is_code_char c = is_word c || c == b'-'

abbrev pub take_while : (ℕ → Bool) → Text → Text
take_while p [] = []
take_while p (c ∷ s) = if p c then c ∷ take_while p s else []

-- `/m2mi_[\w-]+/` where a text starts.
abbrev pub is_invite_here : Text → Bool
is_invite_here s = starts_with (lit "m2mi_") s && not (null (take_while is_code_char (drop 5 s)))

-- `value.match(/m2mi_[\w-]+/)?.[0]`
pub find_invite : Text → Option Text
find_invite [] = none
find_invite (c ∷ s) =
    let later = find_invite s in
    if is_invite_here (c ∷ s)
    then some (lit "m2mi_" ++ take_while is_code_char (drop 5 (c ∷ s)))
    else later

-- `uuid`
pub uuid : Pattern
uuid =
    times 8 is_hex
    then_match word (lit "-")
    then_match times 4 is_hex
    then_match word (lit "-")
    then_match times 4 is_hex
    then_match word (lit "-")
    then_match times 4 is_hex
    then_match word (lit "-")
    then_match times 12 is_hex

-- `value.match(uuid)?.[0]`: what matches has 36 characters.
pub find_uuid : Text → Option Text
unfolding uuid
find_uuid [] = none
find_uuid (c ∷ s) =
    let later = find_uuid s in if uuid (λ rest. true) (c ∷ s) then some (take 36 (c ∷ s)) else later

abbrev pub pasted_call : Option Text → Option Text → Option Call
pasted_call (some code) id = some (accept_invite code)
pasted_call none (some id) = some (claim_tenant id)
pasted_call none none = none

-- What `join.mutate()` sends for the text in the dialog; nothing while the button is disabled.
pub join_call : Text → Mutation → Option Call
unfolding find_invite find_uuid
join_call value request =
    if is_sending request then none else pasted_call (find_invite value) (find_uuid value)

unfoldable pub joined : Text → Tenant → List Effect
joined value t =
    invalidates (query_key tenants_query)
    ∷ toasts
        ((if is_some (find_invite value) then lit "You joined " else lit "You now own ") ++ t.name)
    ∷ goes_to_machines (some t.id)
    ∷ []

pub join_button : Text → Mutation → Text
join_button value request =
    if is_sending request
    then lit "Joining…"
    else if is_some (find_invite value)
    then lit "Join tenant"
    else if is_some (find_uuid value)
    then lit "Claim tenant"
    else lit "Join tenant"

-- What the two dialogs show.
pub record DialogView : Type 0 where
  pub alert : Option Text
  pub button : Text
  pub can_press : Bool

unfoldable pub create_view : CreateDialog → DialogView
create_view d = record {
  alert = mutation_error d.request;
  button = if is_sending d.request then lit "Creating…" else lit "Create tenant";
  can_press = can_create d;
}

unfoldable pub join_view : Text → Mutation → DialogView
unfolding join_call join_button
join_view value request = record {
  alert = mutation_error request;
  button = join_button value request;
  can_press = is_some (join_call value request);
}
