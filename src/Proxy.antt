-- ===== src/Proxy.antt =====
-- proxy/: the retry conditions and timeouts of an endpoint, the loop that serves a request, and
-- the replacement of the router.
pub mod Condition
pub mod Retry
pub mod Loop
pub mod Serve
pub mod Update
pub mod Forwarded
