-- ===== src/Atomic.antt =====
-- pkg/atomic: the typed wrapper of `sync.Map`, and files written through a temporary file.
pub mod Maps
pub mod Files
mod Tests
