-- ===== src/Storage/Pusher.antt =====
-- pkg/storage/pusher.go and pkg/storage/local.go: the interface `Pusher`, the pusher into the cache
-- directory and the one to a registry.
pub mod Local
pub mod Steps
pub mod Complete
pub mod Frame
pub mod Indexed
use jitdi.Base.{List, [], ◌∷◌, Bytes}
use jitdi.Exec.{Exec, Result, ok, err, nothing, ◌>>=◌, ◌>>◌, pure, lift}
use jitdi.Container.{
  Hash, hash_string, Layer, Image, ImageIndex, Reference, Repository, RemotePusher, context,
  digest_of,
}
use jitdi.Disk.{Disk, M}
use jitdi.Atomic.Files.{write_file}
use jitdi.Storage.Paths.{local_blob_path}
use jitdi.Storage.Layers.{save_layer, save_manifest}

pub record Pusher (S : Type 0) : Type 0 where
  pub push_image : Reference → Image → Exec S (Unit {0})
  pub push_image_with_index : Repository → Image → Exec S (Unit {0})
  pub push_image_index : Reference → ImageIndex → Exec S (Unit {0})

-- `for _, layer := range layers`, up to the first error.
unfoldable pub each : {S A : Type 0} → (A → Exec S (Unit {0})) → List A → Exec S (Unit {0})
each f [] = pure nothing
each f (x ∷ xs) = f x >> each f xs

-- The layers, then the configuration, as both of the local pushes of an image have them.
unfoldable pub save_contents : Bytes → Image → M (Unit {0})
unfolding save_layer each local_blob_path write_file
save_contents cache_blobs image = do
  layers ← lift image.layers
  each (λ layer. save_layer layer cache_blobs) layers
  config_blob ← lift image.raw_config_file
  config_name ← lift image.config_name
  write_file (local_blob_path cache_blobs (hash_string config_name)) config_blob

module _ (sum_sha256 : Bytes → Bytes) (cache_blobs cache_manifest : Bytes) where
  unfoldable pub local_push_image : Reference → Image → M (Unit {0})
  unfolding save_contents save_manifest
  local_push_image ref image = do
    save_contents cache_blobs image
    manifest_blob ← lift image.raw_manifest
    save_manifest sum_sha256 manifest_blob cache_blobs cache_manifest ref.repository ref.identifier

  unfoldable pub local_push_image_with_index : Repository → Image → M (Unit {0})
  unfolding save_contents save_manifest
  local_push_image_with_index repo image = do
    save_contents cache_blobs image
    manifest_blob ← lift image.raw_manifest
    save_manifest sum_sha256 manifest_blob cache_blobs cache_manifest repo.repository []

  unfoldable pub local_push_image_index : Reference → ImageIndex → M (Unit {0})
  unfolding save_manifest
  local_push_image_index ref image_index = do
    manifest_blob ← lift image_index.raw_manifest
    save_manifest sum_sha256 manifest_blob cache_blobs cache_manifest ref.repository ref.identifier

  unfoldable pub new_local_pusher : Pusher Disk
  unfolding local_push_image local_push_image_with_index local_push_image_index
  new_local_pusher = record {
    push_image = local_push_image;
    push_image_with_index = local_push_image_with_index;
    push_image_index = local_push_image_index;
  }

-- The push to a registry, which `remote` carries out.
module _ {S : Type 0} (remote : RemotePusher S) where
  unfoldable pub remote_push_image : Reference → Image → Exec S (Unit {0})
  unfolding each
  remote_push_image ref image = do
    layers ← lift image.layers
    each (remote.upload (context ref)) layers
    remote.push_image ref image

  unfoldable pub remote_push_image_with_index : Repository → Image → Exec S (Unit {0})
  unfolding each
  remote_push_image_with_index repo image = do
    layers ← lift image.layers
    each (remote.upload repo) layers
    digest ← lift image.digest
    remote.push_image (digest_of repo (hash_string digest)) image

  unfoldable pub new_pusher : Pusher S
  unfolding remote_push_image remote_push_image_with_index
  new_pusher = record {
    push_image = remote_push_image;
    push_image_with_index = remote_push_image_with_index;
    push_image_index = remote.push_index;
  }
