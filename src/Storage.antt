-- ===== src/Storage.antt =====
-- pkg/storage: blobs and manifests in the local cache directory.
pub mod Paths
pub mod Layers
pub mod Pusher
pub mod Clients
pub mod Tests
