-- ===== src/Frontend/Members.antt =====
-- web/src/frontend/routes/admin/members.tsx: the members of a tenant, and the invite dialog.
pub mod Invites
use mesh2mesh.Base.{
  take, null, Text, lit, text_eq, is_space, show, ◌==◌, if◌then◌else◌, is_some, ℕ, ◌-◌, Bool, true,
  false, not, ◌&&◌, ◌||◌, Option, none, some, List, [], ◌∷◌, ◌++◌, map,
}
use mesh2mesh.Frontend.Api.{
  ApiUser, Role, member, Tenant, Member, Invite, request, Call, create_invite, tenants_query,
  members_query, query_key,
}
use mesh2mesh.Frontend.Hooks.{
  Fetched, pending, query_failed, fetched, Mutation, idle, sending, refused, is_sending,
  mutation_error, Effect, invalidates, toasts, goes_to_tenants,
}
use mesh2mesh.Frontend.Tenants.{is_owner_role}

unfoldable pub can_invite : Tenant → Bool
can_invite t = is_owner_role t.role

-- `m.name || m.email`
abbrev pub label_of : Member → Text
label_of m = if null m.name then m.email else m.name

-- `remove`'s `onSuccess`
unfoldable pub removed : (me : ApiUser) → Tenant → Member → List Effect
removed me t m =
    if text_eq m.user_id me.sub
    then toasts (lit "You left " ++ t.name)
      ∷ invalidates (query_key tenants_query)
      ∷ goes_to_tenants
      ∷ []
    else toasts (label_of m ++ lit " removed") ∷ invalidates (query_key (members_query t.id)) ∷ []

-- The first characters of the parts between separators; of an empty part there is none.
abbrev pub part_starts : (ℕ → Bool) → (at_start : Bool) → Text → Text
part_starts sep b [] = []
part_starts sep b (c ∷ s) =
    let on_gap = part_starts sep true s in
    let on_part = part_starts sep false s in
    if sep c then on_gap else if b then c ∷ on_part else on_part

abbrev is_separator : ℕ → Bool
is_separator c = is_space c || c == b'@' || c == b'.'

-- `initials(s)`
pub initials : (to_upper : Text → Text) → Text → Text
initials to_upper s =
    let found = to_upper (take 2 (part_starts is_separator true s)) in
    if null found then lit "?" else found

-- A line of the table; the page formats `joined_at` for the browser's locale.
pub record MemberRow : Type 0 where
  pub avatar : Text
  pub name : Text
  pub is_self : Bool
  pub email : Option Text
  pub role : Role
  pub joined_at : Text
  pub action : Option Text

-- The row's menu is the user's own, or all of them are an owner's.
pub member_action : (me : ApiUser) → Tenant → Member → Option Text
member_action me t m =
    if text_eq m.user_id me.sub
    then some (lit "Leave tenant")
    else if is_owner_role t.role
    then some (lit "Remove from tenant")
    else none

pub member_row : (Text → Text) → ApiUser → Tenant → Member → MemberRow
unfolding initials member_action
member_row to_upper me t m = record {
  avatar = initials to_upper (label_of m);
  name = if null (label_of m) then m.user_id else label_of m;
  is_self = text_eq m.user_id me.sub;
  email = if null m.email then none else some m.email;
  role = m.role;
  joined_at = m.created_at;
  action = member_action me t m;
}

pub data MembersView : Type 0 where
  members_skeleton : MembersView
  members_failed : Text → MembersView
  members_table : List MemberRow → MembersView

unfoldable pub members_view : (Text → Text) → ApiUser → Tenant → Fetched (List Member) → MembersView
unfolding member_row
members_view to_upper me t pending = members_skeleton
members_view to_upper me t (query_failed message earlier) = members_failed message
members_view to_upper me t (fetched ms) = members_table (map (member_row to_upper me t) ms)

-- `expiries` and `audiences`: what the dialog offers.
abbrev pub expiries : List (Text × ℕ)
expiries = (lit "1 day", 86400) ∷ (lit "7 days", 604800) ∷ (lit "30 days", 2592000) ∷ []

abbrev pub audiences : List (Text × ℕ)
audiences = (lit "One person", 1) ∷ (lit "Up to 10 people", 10) ∷ []

-- The state of `InviteDialog`, with the requests that were sent and not answered: closing the
-- dialog resets the mutation, but its `onSuccess` still runs when the answer comes.
pub record InviteDialog : Type 0 where
  pub role : Role
  pub expiry : ℕ
  pub uses : ℕ
  pub invite : Option Invite
  pub request : Mutation
  pub unanswered : List Call

abbrev pub new_invite_dialog : InviteDialog
new_invite_dialog = record {
  role = member;
  expiry = 604800;
  uses = 1;
  invite = none;
  request = idle;
  unanswered = [];
}

pub data InviteEvent : Type 0 where
  chooses_role : Role → InviteEvent
  chooses_expiry chooses_uses : (option : ℕ) → InviteEvent
  creates : (tenant : Text) → InviteEvent
  creates_invite : (request : ℕ) → Invite → InviteEvent
  creation_fails : (request : ℕ) → Text → InviteEvent
  closes : InviteEvent

-- The button of an option that is offered sets its value.
abbrev pub chosen : List (Text × ℕ) → ℕ → ℕ → ℕ
chosen [] i v = v
chosen ((label, n) ∷ os) i v = let later = chosen os (i - 1) v in if i == 0 then n else later

-- The requests without the one that is answered, counted from the newest.
abbrev pub without : ℕ → List Call → List Call
without k [] = []
without k (c ∷ cs) = let rest = without (k - 1) cs in if k == 0 then cs else c ∷ rest

-- The state of the mutation follows the newest request, until the dialog is closed.
abbrev settled : ℕ → Mutation → Mutation → Mutation
settled k answer request = if k == 0 && is_sending request then answer else request

-- The inputs and the button for a new invite are there until one is shown.
abbrev unless_shown : InviteDialog → InviteDialog → InviteDialog
unless_shown d e = if is_some d.invite then d else e

-- One event: what the dialog becomes.
pub invite_step : InviteEvent → InviteDialog → InviteDialog
invite_step (chooses_role r) d = unless_shown d (record d { role = r })
invite_step (chooses_expiry i) d = unless_shown d (record d { expiry = chosen expiries i d.expiry })
invite_step (chooses_uses i) d = unless_shown d (record d { uses = chosen audiences i d.uses })
invite_step (creates t) d = unless_shown d (
    if is_sending d.request then d else record d {
      request = sending;
      unanswered = create_invite t d.role d.expiry d.uses ∷ d.unanswered;
    })
invite_step (creates_invite k i) d = record d {
  invite = some i;
  request = settled k idle d.request;
  unanswered = without k d.unanswered;
}
invite_step (creation_fails k message) d = record d {
  request = settled k (refused message) d.request;
  unanswered = without k d.unanswered;
}
invite_step closes d = record d { invite = none; request = idle }

-- `InviteLink`
unfoldable pub invite_link : (origin : Text) → Invite → Text
invite_link origin i = origin ++ (lit "/invite/" ++ i.code)

pub invite_terms : Invite → Text
invite_terms i =
    if i.max_uses == 1 then lit "one person" else lit "up to " ++ (show i.max_uses ++ lit " people")

-- The dialog after some events.
pub after_events : List InviteEvent → InviteDialog
unfolding invite_step
after_events [] = new_invite_dialog
after_events (e ∷ es) = invite_step e (after_events es)

-- What `InviteDialog` shows: the link of the invite that was made, or the choices for a new one.
pub data InviteBody : Type 0 where
  shows_link : (link code_start terms : Text) → InviteBody
  shows_choices : (role : Role) (expiry uses : ℕ) (alert : Option Text) → InviteBody

pub record InviteDialogView : Type 0 where
  pub title : Text
  pub body : InviteBody
  pub button : Text
  pub can_press : Bool

unfoldable pub invite_dialog_view : (origin : Text) → Tenant → InviteDialog → InviteDialogView
unfolding invite_link invite_terms
invite_dialog_view origin t d = elim d.invite [
  | some i ↦ record {
    title = lit "Invite people to " ++ t.name;
    body = shows_link (invite_link origin i) (take 12 i.code ++ lit "…") (invite_terms i);
    button = lit "Done";
    can_press = true;
  }
  | none ↦ record {
    title = lit "Invite people to " ++ t.name;
    body = shows_choices d.role d.expiry d.uses (mutation_error d.request);
    button = if is_sending d.request then lit "Creating…" else lit "Create invite link";
    can_press = not (is_sending d.request);
  }
]
