-- ===== src/Persistence/Cache.antt =====
-- The cache of files (internal/persistence/filecache/filecache.go).
pub mod Defs
mod Within
pub mod Fresh
pub mod Samples
