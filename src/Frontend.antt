-- ===== src/Frontend.antt =====
-- web/src/frontend: the single-page application, without its styles.
pub mod Api
pub mod Peer
pub mod Time
pub mod Shell
pub mod Hooks
pub mod CurrentTenant
pub mod Theme
pub mod Router
pub mod Login
pub mod Devices
pub mod Machines
pub mod Tenants
pub mod Members
pub mod Layout
pub mod Tests
