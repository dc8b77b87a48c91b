-- ===== src/Matcher.antt =====
-- The matching of patterns (internal/stringutil/matcher.go).
pub mod Defs
pub mod Reference
mod Samples
