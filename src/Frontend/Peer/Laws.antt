-- ===== src/Frontend/Peer/Laws.antt =====
-- What the presence of a machine says about its last report.
use mesh2mesh.Base.{Text, ◌or◌, ℕ, ◌+◌, ◌*◌, ◌≤◌, ◌<◌, ◌≡◌, ◌↔◌, true, false, [], arith}
use mesh2mesh.Frontend.Api.{Peer}
use mesh2mesh.Frontend.Peer.{connected, offline, never, is_blank, presence}

-- A machine is shown connected exactly if it has reported and its last report is at most eleven
-- minutes old, offline exactly if it has reported and the report is older, and as never started
-- exactly if it has not reported.
presence_lem :
    (time_of : Text → ℕ) (p : Peer) (now : ℕ)
    → ((presence time_of p now ≡ never) ↔ (is_blank p.endpoint_updated_at ≡ true))
      × ((presence time_of p now ≡ connected) ↔ (
          (is_blank p.endpoint_updated_at ≡ false)
          × (now ≤ time_of (p.endpoint_updated_at or []) + 11 * 60000)))
      × ((presence time_of p now ≡ offline) ↔ (
          (is_blank p.endpoint_updated_at ≡ false)
          × (time_of (p.endpoint_updated_at or []) + 11 * 60000 < now)))
unfolding presence
presence_lem time_of p now = ground arith
