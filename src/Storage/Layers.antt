-- ===== src/Storage/Layers.antt =====
-- pkg/storage/local.go: `saveLayer`, `writeFileWithReader` and `saveManifest`.
pub mod Addressed
pub mod Saved
use jitdi.Base.{
  ℕ, ◌≡◌, Bool, true, false, List, [], ◌∷◌, ◌++◌, Bytes, codes, length, is_empty, has_prefix, not,
  ◌&&◌, if◌then◌else◌, ◌==◌,
}
use jitdi.Container.{Hash, Layer}
use jitdi.Exec.{Result, ok, err, size_is_zero, ◌>>=◌, ◌>>◌, try, pure, raise, lift, nothing}
use jitdi.Disk.{M, touch, create_temp, copy, rename, read}
use jitdi.Atomic.Files.{write_file}
use jitdi.Storage.Paths.{local_blob_path, local_manifest_path}

same_size : ℕ → Result ℕ → Bool
same_size n (ok size) = n == size
same_size n (err e) = false

hit_size : Layer → Result Bytes → M Bool
hit_size layer (ok contents) = pure (same_size (length contents) (layer.size false))
hit_size layer (err e) = pure false

-- Whether the blob is there already, with the layer's size.
hit_layer : Layer → Bytes → Result Hash → M Bool
hit_layer layer cache_blobs (ok digest) =
    try (read (local_blob_path cache_blobs digest.hex)) (hit_size layer)
hit_layer layer cache_blobs (err e) = pure false

-- The deferred `os.Remove` behind an error.
remove_on_error : Result (Unit {0}) → M (Unit {0})
remove_on_error (ok u) = pure u
remove_on_error (err e) = try touch (λ _. raise e)

-- Behind `r.Close`.
after_reader : Result (Unit {0}) → M (Unit {0})
after_reader (ok u) = touch
after_reader (err e) = try touch (λ _. raise e)

-- Behind `io.Copy`.
after_copy : Result (Unit {0}) → M (Unit {0})
after_copy (ok u) = try touch after_reader
after_copy (err e) = try touch (λ _. try touch (λ _. raise e))

unfoldable pub write_file_with_reader : ℕ → Bytes → M (Unit {0})
unfolding copy touch after_copy after_reader remove_on_error
write_file_with_reader f contents = try (try (copy f contents) after_copy) remove_on_error

-- From the test of the size on.
rename_layer : ℕ → Bytes → Hash → ℕ → M (Unit {0})
rename_layer file cache_blobs digest size =
    if size == 0 then raise size_is_zero else rename file (local_blob_path cache_blobs digest.hex)

-- Behind the test for a hit.
store_layer : Layer → Bytes → M (Unit {0})
store_layer layer cache_blobs = do
  touch
  file ← create_temp
  r ← lift layer.compressed
  write_file_with_reader file r
  digest ← lift (layer.digest true)
  size ← lift (layer.size true)
  rename_layer file cache_blobs digest size

unless_hit : Layer → Bytes → Bool → M (Unit {0})
unless_hit layer cache_blobs true = pure nothing
unless_hit layer cache_blobs false = store_layer layer cache_blobs

unfoldable pub save_layer : Layer → Bytes → M (Unit {0})
unfolding hit_layer hit_size same_size unless_hit store_layer rename_layer
save_layer layer cache_blobs = do
  hit ← hit_layer layer cache_blobs (layer.digest false)
  unless_hit layer cache_blobs hit

-- `name != "" && tag != "" && !strings.HasPrefix(tag, "sha256:")`
abbrev pub has_tag : Bytes → Bytes → Bool
has_tag name tag =
    not (is_empty name) && (not (is_empty tag) && not (has_prefix tag (codes "sha256:")))

unfoldable pub tag_manifest : Bytes → Bytes → Bytes → Bytes → M (Unit {0})
unfolding write_file
tag_manifest manifest_blob cache_manifest name tag =
    if has_tag name tag
    then write_file (local_manifest_path cache_manifest name tag) manifest_blob
    else pure nothing

unfoldable pub save_manifest :
    (Bytes → Bytes) → Bytes → Bytes → Bytes → Bytes → Bytes → M (Unit {0})
unfolding tag_manifest write_file
save_manifest sum_sha256 manifest_blob cache_blobs cache_manifest name tag = do
  write_file (local_blob_path cache_blobs (sum_sha256 manifest_blob)) manifest_blob
  tag_manifest manifest_blob cache_manifest name tag
