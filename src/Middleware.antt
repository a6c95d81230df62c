-- ===== src/Middleware.antt =====
-- middleware/: the options of a request, the registry and the middlewares.
pub mod Request
pub mod Jwt
pub mod Registry
pub mod Ip
pub mod RouterFilter
pub mod Rbac
pub mod CircuitBreaker
pub mod Cors
pub mod Rewrite
