-- ===== src/Frontend/Layout.antt =====
-- web/src/frontend/routes/admin/layout.tsx: the header of the admin pages, and
-- web/src/frontend/routes/invite.tsx and web/src/frontend/components/copy.tsx.
use mesh2mesh.Base.{
  take, null, any, keep, Text, lit, text_eq, is_space, ltb, leb, if◌then◌else◌, ◌or◌, ℕ, ◌+◌, Bool,
  true, false, Option, none, some, List, [], ◌∷◌, ◌++◌, map,
}
use mesh2mesh.Frontend.Api.{ApiUser, Tenant, request, Call, accept_invite, tenants_query, query_key}
use mesh2mesh.Frontend.Hooks.{
  Fetched, pending, query_failed, fetched, data_of, Mutation, is_sending, mutation_error, Effect,
  invalidates, toasts, goes_to_machines,
}
use mesh2mesh.Frontend.Members.{part_starts}
use mesh2mesh.Frontend.Theme.{Theme}

pub record SwitcherItem : Type 0 where
  pub name : Text
  pub cidr : Text
  pub is_current : Bool
  pub link : Effect

pub record Switcher : Type 0 where
  pub label : Text
  pub items : List SwitcherItem

abbrev is_pending : {D : Type 0} → Fetched D → Bool
is_pending pending = true
is_pending _ = false

abbrev switcher_label : Option Tenant → Bool → Text
switcher_label (some t) loading = t.name
switcher_label none loading = if loading then lit "Loading…" else lit "No tenant"

abbrev is_current_tenant : Option Tenant → Tenant → Bool
is_current_tenant none t = false
is_current_tenant (some c) t = text_eq t.id c.id

abbrev switcher_item : Option Tenant → Tenant → SwitcherItem
switcher_item current t = record {
  name = t.name;
  cidr = t.cidr;
  is_current = is_current_tenant current t;
  link = goes_to_machines (some t.id);
}

-- `TenantSwitcher`
unfoldable pub switcher : Fetched (List Tenant) → Option Tenant → Switcher
switcher answer current = record {
  label = switcher_label current (is_pending answer);
  items = map (switcher_item current) (data_of answer or []);
}

-- `ControlPlaneStatus`: its text and the tooltip.
unfoldable pub control_plane_status : {D : Type 0} → Fetched D → Text × Text
control_plane_status pending = (lit "Checking", lit "GET /healthz, every 15 s")
control_plane_status (query_failed message earlier) = (lit "Control plane down", message)
control_plane_status (fetched d) = (lit "Control plane up", lit "GET /healthz, every 15 s")

-- `UserMenu`
pub record UserMenu : Type 0 where
  pub avatar : Text
  pub name : Text
  pub email : Option Text
  pub chosen_theme : Theme

abbrev shown_email : Option Text → Option Text
shown_email none = none
shown_email (some e) = if null e then none else some e

unfoldable pub user_menu : (Text → Text) → ApiUser → Theme → UserMenu
user_menu to_upper user theme = record {
  avatar = to_upper (take 2 (part_starts is_space true user.name));
  name = user.name;
  email = shown_email user.email;
  chosen_theme = theme;
}

-- `InvitePage`
pub record InviteView : Type 0 where
  pub joins_as : Option Text
  pub alert : Option Text
  pub button : Text
  pub is_disabled : Bool

abbrev named : Option ApiUser → Option Text
named none = none
named (some u) = some (u.email or u.name)

unfoldable pub invite_view : Option ApiUser → Mutation → InviteView
invite_view user request = record {
  joins_as = named user;
  alert = mutation_error request;
  button = if is_sending request then lit "Joining…" else lit "Accept invite";
  is_disabled = is_sending request;
}

unfoldable pub accept_call : (code : Text) → Mutation → Option Call
accept_call code request = if is_sending request then none else some (accept_invite code)

unfoldable pub accepted_invite : Tenant → List Effect
accepted_invite t =
    invalidates (query_key tenants_query)
    ∷ toasts (lit "You joined " ++ t.name)
    ∷ goes_to_machines (some t.id)
    ∷ []

-- `useCopy`: whether "Copied" is shown, with the timers that are still to run.
pub record CopyState : Type 0 where
  pub copied : Bool
  pub timers : List ℕ
  pub failures : ℕ

abbrev copied_ms : ℕ
copied_ms = 1500

-- `copy(text)`, at a time and with the outcome of the clipboard.
unfoldable pub copy : (now : ℕ) (can_write : Bool) → CopyState → CopyState
copy now true s = record s { copied = true; timers = (now + copied_ms) ∷ s.timers }
copy now false s = record s { failures = s.failures + 1 }

-- `setTimeout`'s callbacks that are due.
unfoldable pub run_timers : (now : ℕ) → CopyState → CopyState
run_timers now s =
    if any (λ t. leb t now) s.timers
    then record s { copied = false; timers = keep (λ t. ltb now t) s.timers }
    else s
