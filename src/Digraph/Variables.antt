-- ===== src/Digraph/Variables.antt =====
-- The entries of internal/digraph/syncmap.go, and internal/stringutil/kv.go. The map is a list of
-- entries; an entry's value is a text `key=value`.
mod Samples
mod Laws
pub use Laws.*
mod Defs
unfoldable pub use Defs.*
