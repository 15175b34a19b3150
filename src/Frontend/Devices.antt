-- ===== src/Frontend/Devices.antt =====
-- web/src/frontend/routes/admin/device-dialogs.tsx: the commands that add a machine and stop one.
pub mod Commands
use mesh2mesh.Base.{
  length, null, all, keep, Text, lit, is_digit, trim, join, if◌then◌else◌, within, is_some, Bool,
  not, ◌&&◌, Option, none, some, List, [], ◌∷◌, ◌++◌,
}
use mesh2mesh.Frontend.Api.{Tenant, Peer, RuntimeConfig}
use mesh2mesh.Frontend.Shell.{shell_arg}

-- The dialog's inputs.
pub record DeviceForm : Type 0 where
  pub name : Text
  pub port : Text
  pub verbose : Bool

-- `[…].filter(Boolean).join(" ")`
abbrev pub join_parts : List Text → Text
join_parts parts = join (32 ∷ []) (keep (λ p. not (null p)) parts)

abbrev api_part : Option RuntimeConfig → Text
api_part none = []
api_part (some c) = if null c.public_api_url then [] else lit "--api " ++ shell_arg c.public_api_url

abbrev name_part : Text → Text
name_part name = if null name then [] else lit "--name " ++ shell_arg name

pub join_command : Tenant → Option RuntimeConfig → DeviceForm → Text
join_command t config form =
    join_parts (lit "sudo meshd join" ∷ t.id ∷ api_part config ∷ name_part (trim form.name) ∷ [])

-- `/^\d{1,5}$/`
abbrev pub is_port : Text → Bool
is_port s = all is_digit s && within 1 5 (length s)

pub run_command : DeviceForm → Text
run_command form = join_parts (
    lit "sudo meshd run"
    ∷ (if is_port form.port then lit "--port " ++ form.port else [])
    ∷ (if form.verbose then lit "-v" else [])
    ∷ [])

pub record AddDeviceView : Type 0 where
  pub opens : Bool
  pub network : Text
  pub steps : List Text
  pub join_line : Text
  pub run_line : Text

unfoldable pub add_device_view : Tenant → Option RuntimeConfig → Bool → DeviceForm → AddDeviceView
unfolding join_command run_command
add_device_view t config opens form = record {
  opens = opens;
  network = t.name;
  steps = lit "Install meshd" ∷ lit "Join the tenant" ∷ lit "Connect" ∷ [];
  join_line = join_command t config form;
  run_line = run_command form;
}

pub record StopDeviceView : Type 0 where
  pub opens : Bool
  pub title : Text
  pub command : Text

abbrev name_of_peer : Option Peer → Text
name_of_peer none = []
name_of_peer (some p) = p.name

unfoldable pub stop_device_view : Option Peer → StopDeviceView
stop_device_view peer = record {
  opens = is_some peer;
  title = lit "Stop " ++ name_of_peer peer;
  command = lit "sudo meshd stop";
}
