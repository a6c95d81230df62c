-- ===== src/Loader.antt =====
-- Package pkg/loader (pkg/loader/source.go): the keys of a source, the files that it fills, and
-- the events that change them.
pub mod Path
pub mod Keys
pub mod Source
pub mod Files
pub mod Watch
