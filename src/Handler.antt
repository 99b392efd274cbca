-- ===== src/Handler.antt =====
-- pkg/handler: the rules in force, the choice of a rule, and the requests.
pub mod Select
pub mod Rules
pub mod Route
pub mod BuildLock
pub mod Mutates
pub mod Build
pub mod Reply
pub mod Serve
mod Tests
