-- ===== src/Config.antt =====
-- config/: the gateway's configuration, its merging, its sources and its reloading.
pub mod Types
pub mod Merge
pub mod CtrlLoader
pub mod Watching
pub mod Reload
