-- ===== src/Storage/Tests.antt =====
-- pkg/storage: runs of the definitions and instances of the theorems.
use jitdi.Base.{
  ℕ, Option, ◌≡◌, if◌then◌else◌, refl, ap, subst, true, some, List, [], ◌∷◌, Bytes, codes, lookup,
  has_prefix, arith,
}
use jitdi.Storage.Pusher.{local_push_image}
use jitdi.Exec.{failed, Result, ok, err}
use jitdi.Container.{Image, Reference, Hash, Layer}
use jitdi.Disk.{Disk, read, touch, create_temp, rename}
use jitdi.Storage.Paths.{local_blob_path, local_manifest_path, IsHex}
use jitdi.Storage.Layers.{save_layer, write_file_with_reader, has_tag}
use jitdi.Storage.Layers.Saved.{IsSound}
use jitdi.Storage.Pusher.Steps.{Went}
use jitdi.Storage.Pusher.Complete.{IsSoundImage, HasContents, local_push_image_complete}
use jitdi.Storage.Layers.Addressed.{IsAddressed, IsHonest, save_layer-IsAddressed}

blob_paths :
    (local_blob_path (codes "cache/blobs") (codes "12ab") ≡ codes "cache/blobs/sha256:12ab")
    × (local_blob_path (codes "cache/blobs") (codes "sha256:12ab")
        ≡ codes "cache/blobs/sha256:12ab")
unfolding local_blob_path
blob_paths = (refl, refl)

manifest_path :
    local_manifest_path (codes "cache/m") (codes "library/nginx") (codes "v1")
    ≡ codes "cache/m/library/nginx/v1/manifest.json"
unfolding local_manifest_path
manifest_path = refl

zeros_IsHex : IsHex (codes "00")
zeros_IsHex = (λ e. cc, omega arith, omega arith)

abbrev empty_disk : List (Option ℕ) → Disk
empty_disk faults = record { files = []; temps = λ t. []; next_temp = 0; faults = faults }

abbrev zeros : Bytes → Bytes
zeros s = codes "00"

abbrev a_layer : Layer
a_layer = record {
  digest = λ computed. ok (record { algorithm = codes "sha256"; hex = codes "00" });
  size = λ computed. ok 3;
  compressed = ok (codes "abc");
}

abbrev hex_of : Result Hash → Bytes
hex_of (ok h) = h.hex
hex_of (err e) = []

a_layer-IsHonest : IsHonest zeros (codes "cache") a_layer
a_layer-IsHonest h c e e' = (subst IsHex (ap hex_of e) zeros_IsHex, ap hex_of e)

empty-IsAddressed : IsAddressed zeros (codes "cache") []
unfolding lookup
empty-IsAddressed hex c h e = absurd (ground (arith, e))

save_layer-IsAddressed_example :
    IsAddressed zeros (codes "cache") (save_layer a_layer (codes "cache") (empty_disk [])).1.files
save_layer-IsAddressed_example =
    save_layer-IsAddressed zeros (codes "cache") a_layer (empty_disk []) a_layer-IsHonest
      empty-IsAddressed

saves_a_layer :
    (save_layer a_layer (codes "cache") (empty_disk [])).1.files
    ≡ (codes "cache/sha256:00", codes "abc") ∷ []
unfolding save_layer read touch create_temp write_file_with_reader rename local_blob_path
saves_a_layer = refl

tagged : has_tag (codes "nginx") (codes "v1") ≡ true
unfolding has_prefix
tagged = refl

abbrev a_reference : Reference
a_reference = record { registry = []; repository = codes "nginx"; identifier = codes "v1" }

abbrev pub hash_of : Bytes → Hash
hash_of s = record { algorithm = codes "sha256"; hex = s }

-- Under a digest that is the contents themselves.
abbrev pub sum : Bytes → Bytes
sum s = s

-- A layer that streams: its digest is known once it has been read.
abbrev pub layer : Layer
layer = record {
  digest = λ computed. if computed then ok (hash_of (codes "x")) else err (failed 0);
  size = λ computed. if computed then ok 1 else err (failed 0);
  compressed = ok (codes "x");
}

abbrev pub image : Image
image = record {
  media_type = ok (codes "m");
  layers = ok (layer ∷ []);
  raw_config_file = ok (codes "c");
  config_name = ok (hash_of (codes "c"));
  manifest_media_type = ok (codes "m");
  raw_manifest = ok (codes "{}");
  digest = ok (hash_of (codes "{}"));
  size = ok 2;
}

pub layer-IsSound : IsSound sum layer
layer-IsSound = record {
  digest = hash_of (codes "x");
  contents = codes "x";
  read_digest = refl;
  read_contents = refl;
  read_size = refl;
  not_empty = λ e. cc;
  early_digest = λ h e. cc;
  hex = (λ e. cc, omega arith, omega arith);
  summed = refl;
}

pub c_IsHex : IsHex (codes "c")
c_IsHex = (λ e. cc, omega arith, omega arith)

abbrev pub image-IsSoundImage : IsSoundImage sum image
image-IsSoundImage = record {
  layers = layer ∷ [];
  config = codes "c";
  config_hash = hash_of (codes "c");
  manifest = codes "{}";
  read_layers = refl;
  sound = (layer-IsSound, tt);
  read_config = refl;
  read_name = refl;
  algorithm = refl;
  hex = c_IsHex;
  summed = refl;
  read_manifest = refl;
}

pub identity-IsAddressed : IsAddressed sum (codes "b") []
unfolding lookup
identity-IsAddressed hex c h e = absurd (ground (arith, e))

local_push_image_complete_example :
    Went
      (empty_disk [])
      (local_push_image sum (codes "b") (codes "m") a_reference image (empty_disk []))
    × HasContents sum
        (codes "b")
        (layer ∷ [])
        (hash_of (codes "c"))
        (local_push_image sum (codes "b") (codes "m") a_reference image (empty_disk [])).1.files
    × (lookup
          (local_manifest_path (codes "m") (codes "nginx") (codes "v1"))
          (local_push_image sum (codes "b") (codes "m") a_reference image (empty_disk [])).1.files
        ≡ some (codes "{}"))
    × (lookup
          (local_blob_path (codes "b") (codes "{}"))
          (local_push_image sum (codes "b") (codes "m") a_reference image (empty_disk [])).1.files
        ≡ some (codes "{}"))
local_push_image_complete_example =
    local_push_image_complete sum (codes "b") image image-IsSoundImage (codes "m")
      (λ e. cc, omega arith, omega arith) a_reference (empty_disk []) tagged refl
      identity-IsAddressed
