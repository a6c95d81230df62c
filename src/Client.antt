-- ===== src/Client.antt =====
-- client/: the backend nodes, their health, their choice and the watching of the registry.
pub mod Node
pub mod Health
pub mod RoundTrip
pub mod Watch
pub mod Target
pub mod Factory
