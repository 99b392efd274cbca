-- ===== src/Builder.antt =====
-- pkg/builder: files and archives of them; layers, images and indexes that are built on others.
mod Tests
pub mod Tar
pub mod Files
pub mod Ollama
pub mod Link
pub mod Image
pub mod Index
