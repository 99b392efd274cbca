-- ===== src/Pattern.antt =====
-- pkg/pattern: image patterns, the order of rules, and parameter substitution.
pub mod Parse
pub mod Params
pub mod Match
pub mod Less
pub mod Rule
mod Tests
