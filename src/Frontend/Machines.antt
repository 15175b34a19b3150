-- ===== src/Frontend/Machines.antt =====
-- web/src/frontend/routes/admin/machines.tsx: the page of a tenant's machines.
pub mod Order
pub mod Search
use mesh2mesh.Base.{
  length, take, null, any, keep, Text, lit, starts_with, trim, join, show, ◌==◌, if◌then◌else◌,
  ◌or◌, ◌or_else◌, ℕ, Bool, true, false, ◌||◌, Option, none, some, List, [], ◌∷◌, ◌++◌, map,
}
use mesh2mesh.Frontend.Api.{Tenant, Peer}
use mesh2mesh.Frontend.Hooks.{Fetched, pending, query_failed, fetched, Effect, toasts, toasts_error}
use mesh2mesh.Frontend.Peer.{
  Presence, connected, offline, never, Route, presence, path, PathInfo, path_info,
}
use mesh2mesh.Frontend.Router.{TenantsSearch}
use mesh2mesh.Frontend.Time.{ago}

-- What the pages of one tenant show: also of web/src/frontend/routes/admin/members.tsx.
pub data TenantPage : Type 0 where
  skeleton no_tenant : TenantPage
  failed_with : Text → TenantPage
  page_of : Tenant → TenantPage

unfoldable pub tenant_page : Fetched (List Tenant) → Option Tenant → TenantPage
tenant_page pending current = skeleton
tenant_page (query_failed message earlier) current = failed_with message
tenant_page (fetched ts) none = no_tenant
tenant_page (fetched ts) (some t) = page_of t

-- `a.includes(b)`
abbrev pub includes : Text → Text → Bool
includes [] q = null q
includes (c ∷ s) q = starts_with q (c ∷ s) || includes s q

-- `before` is `a.localeCompare(b) <= 0`, which depends on the browser's locale.
module _ (before : Text → Text → Bool) where
  abbrev pub insert : Peer → List Peer → List Peer
  insert p [] = p ∷ []
  insert p (q ∷ qs) = if before p.name q.name then p ∷ q ∷ qs else q ∷ insert p qs

  -- `[...peers].sort(…)`, which keeps the order of equal names.
  abbrev pub sort : List Peer → List Peer
  sort [] = []
  sort (p ∷ ps) = insert p (sort ps)

-- `toLowerCase`
module _ (to_lower : Text → Text) where
  abbrev pub field_has : Text → Option Text → Bool
  field_has q none = false
  field_has q (some v) = includes (to_lower v) q

  abbrev pub is_match : Text → Peer → Bool
  is_match q p =
      any (field_has q)
        (some p.name ∷ some p.mesh_ip ∷ p.endpoint ∷ p.nat_endpoint ∷ some p.peer_id ∷ [])

  -- The memo of `MachineList`.
  pub shown : (Text → Text → Bool) → Text → Option (List Peer) → List Peer
  shown before filter peers =
      let q = to_lower (trim filter) in
      let all_peers = sort before (peers or []) in
      if null q then all_peers else keep (is_match q) all_peers

pub data LastSeen : Type 0 where
  not_started : LastSeen
  connected_now : (at : Text) → LastSeen
  seen : (text at : Text) → LastSeen

pub last_seen : (Text → ℕ) → ℕ → Peer → LastSeen
last_seen time_of now p =
    let at = p.endpoint_updated_at or [] in
    elim (presence time_of p now) [
      | never ↦ not_started
      | connected ↦ connected_now at
      | offline ↦ seen (ago time_of now at) at
    ]

pub record MachineRow : Type 0 where
  pub name : Text
  pub short_id : Text
  pub address : Text
  pub badge : Option PathInfo
  pub endpoint : Text
  pub last : LastSeen

-- The badge is shown once the machine has reported.
abbrev badge_of : Presence → Option Route → Option PathInfo
badge_of never r = none
badge_of _ none = none
badge_of _ (some r) = some (path_info r)

pub machine_row : (Text → ℕ) → ℕ → Peer → MachineRow
unfolding last_seen
machine_row time_of now p = record {
  name = p.name;
  short_id = take 8 p.peer_id;
  address = p.mesh_ip;
  badge = badge_of (presence time_of p now) (path p);
  endpoint = (p.nat_endpoint or_else p.endpoint) or lit "—";
  last = last_seen time_of now p;
}

pub record MachineTable : Type 0 where
  pub count_text : Text
  pub rows : List MachineRow
  pub no_match : Option Text

pub data MachineList : Type 0 where
  list_skeleton no_machines : MachineList
  list_failed : Text → MachineList
  machine_table : MachineTable → MachineList

abbrev is_connected : Presence → Bool
is_connected connected = true
is_connected _ = false

-- "2 machines · 1 connected"
pub count_text_of : (Text → ℕ) → ℕ → List Peer → Text
count_text_of time_of now ps =
    show (length ps)
    ++ ((if length ps == 1 then lit " machine" else lit " machines")
        ++ (lit " · "
            ++ (show (length (keep (λ p. is_connected (presence time_of p now)) ps))
                ++ lit " connected")))

unfoldable pub machine_list :
    (Text → Text)
    → (Text → Text → Bool)
    → (Text → ℕ)
    → ℕ
    → (filter : Text) → Fetched (List Peer)
    → MachineList
unfolding shown machine_row count_text_of
machine_list to_lower before time_of now filter pending = list_skeleton
machine_list to_lower before time_of now filter (query_failed message earlier) = list_failed message
machine_list to_lower before time_of now filter (fetched []) = no_machines
machine_list to_lower before time_of now filter (fetched ps) =
    let found = shown to_lower before filter (some ps) in
    machine_table (record {
      count_text = count_text_of time_of now ps;
      rows = map (machine_row time_of now) found;
      no_match =
          if null found then some (lit "No machine matches “" ++ (filter ++ lit "”.")) else none;
    })

-- The menu of a row copies one of its texts; a browser without a clipboard says so.
pub data Copied : Type 0 where
  copies_address copies_peer_id copies_public_key : Copied

unfoldable pub copied_text : Copied → Peer → Text × Text
copied_text copies_address p = (lit "Address", p.mesh_ip)
copied_text copies_peer_id p = (lit "Peer ID", p.peer_id)
copied_text copies_public_key p = (lit "Public key", p.public_key)

unfoldable pub copy_toast : (can_write : Bool) → Text → Effect
copy_toast true what = toasts (what ++ lit " copied")
copy_toast false what = toasts_error (lit "The clipboard needs https or localhost")

-- What `MachinesPage` says above the list.
unfoldable pub machines_description : Tenant → Text
machines_description t = lit "The nodes in " ++ (t.name ++ (lit ", on " ++ (t.cidr ++ lit ".")))

-- The columns of the list, and the texts of the page without a tenant and of the list without a
-- machine, with the targets of their buttons.
abbrev pub machine_columns : List Text
machine_columns =
    lit "Machine" ∷ lit "Address" ∷ lit "Connection" ∷ lit "Endpoint" ∷ lit "Last seen" ∷ []

abbrev pub no_tenant_links : List (Text × TenantsSearch)
no_tenant_links =
    (lit "Join with an invite", record { create = false; join = true })
    ∷ (lit "Create tenant", record { create = true; join = false })
    ∷ []
