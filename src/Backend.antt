-- ===== src/Backend.antt =====
-- web/src/backend: the server that serves the built UI, the login flow under /auth and the
-- control plane's API under /api. `Platform` holds what Node.js gives and the source only calls.
pub mod Http
pub mod Cookies
pub mod Config
pub mod Provider
pub mod Oidc
pub mod Login
pub mod Callback
pub mod Logout
pub mod Session
pub mod AuthRoutes
pub mod Proxy
pub mod Static
pub mod Index
pub mod Tests
