-- ===== src/Frontend/Peer.antt =====
-- web/src/frontend/lib/peer.ts: whether a machine is connected, and how peers reach it.
pub mod Laws
use mesh2mesh.Base.{
  null, Text, lit, ltb, if◌then◌else◌, ◌or◌, ℕ, ◌+◌, Bool, true, Option, none, some, [],
}
use mesh2mesh.Frontend.Api.{Peer}

abbrev pub offline_after_ms : ℕ
offline_after_ms = 660000

pub data Presence : Type 0 where
  connected offline never : Presence

pub data Route : Type 0 where
  direct hole_punch relay : Route

-- `!s`, for a text that may be absent
abbrev pub is_blank : Option Text → Bool
is_blank none = true
is_blank (some s) = null s

-- `time_of` is `new Date(iso).getTime()`, in milliseconds after 1970.
pub presence : (Text → ℕ) → Peer → ℕ → Presence
presence time_of p now =
    if is_blank p.endpoint_updated_at
    then never
    else if ltb (time_of (p.endpoint_updated_at or []) + offline_after_ms) now
    then offline
    else connected

unfoldable pub path : Peer → Option Route
path p =
    if is_blank p.endpoint
    then none
    else if p.direct_reachable
    then some direct
    else some (if is_blank p.nat_endpoint then relay else hole_punch)

pub record PathInfo : Type 0 where
  pub label : Text
  pub hint : Text

unfoldable pub path_info : Route → PathInfo
path_info direct = record {
  label = lit "Direct";
  hint = lit "Its UDP port answers the control plane's probe: peers connect straight to it.";
}
path_info hole_punch = record {
  label = lit "Hole punch";
  hint = lit "Behind NAT: peers punch through to its mapping and fall back to the relay.";
}
path_info relay = record {
  label = lit "Relayed";
  hint = lit "Not reachable directly and no NAT mapping: traffic goes through the relay.";
}
