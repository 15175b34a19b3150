-- ===== src/Control.antt =====
-- The control plane, internal and cmd/controlplane: the Go program that the web server calls.
pub mod Addr
pub mod Netip
pub mod Wire
pub mod Relay
pub mod Store
pub mod Access
pub mod Registry
pub mod Machines
pub mod Prober
pub mod Plane
pub mod Tests
