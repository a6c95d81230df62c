-- ===== src/Router.antt =====
-- router/: the router of the gateway.
pub mod Mux
