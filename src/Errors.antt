-- ===== src/Errors.antt =====
-- errors/: the codes, reasons and messages of the gateway's own errors, and how they are written.
pub mod Codes
pub mod Mapping
pub mod Response
mod Tests
