-- ===== src/Storage/Pusher/Complete.antt =====
-- pkg/storage/local.go: a push of a whole image into the cache directory, where no call fails.
use jitdi.Base.{
  ◌≡◌, refl, sym, subst, ap, ◌∙◌, true, some, All, List, [], ◌++◌, Bytes, codes, lookup,
}
use jitdi.Exec.{ok, nothing}
use jitdi.Disk.{Disk, M}
use jitdi.Container.{Hash, hash_string, Layer, Image, Reference}
use jitdi.Atomic.Files.{write_file}
use jitdi.Storage.Paths.{local_blob_path, local_manifest_path, IsHex, local_blob_path_sha256}
use jitdi.Storage.Layers.{save_layer, has_tag, save_manifest}
use jitdi.Storage.Layers.Addressed.{IsAddressed}
use jitdi.Storage.Layers.Saved.{IsSound}
use jitdi.Storage.Pusher.{each, save_contents, local_push_image}
use jitdi.Storage.Pusher.Local.{save_manifest_steps, save_manifest_found}
use jitdi.Storage.Pusher.Steps.{
  Grows, Went, Went-ok, IsKept, KeepsLayer, Grows-IsKept, Grows-KeepsLayers, blob-Fits,
  manifest-Fits, write_file-Went, save_layers-Went,
}

-- An image of sound layers that tells its configuration and the digest of that truly, and its manifest.
pub record IsSoundImage (sum_sha256 : Bytes → Bytes) (image : Image) : Type 0 where
  pub layers : List Layer
  pub config : Bytes
  pub config_hash : Hash
  pub manifest : Bytes
  pub read_layers : image.layers ≡ ok layers
  pub sound : All (IsSound sum_sha256) layers
  pub read_config : image.raw_config_file ≡ ok config
  pub read_name : image.config_name ≡ ok config_hash
  pub algorithm : config_hash.algorithm ≡ codes "sha256"
  pub hex : IsHex config_hash.hex
  pub summed : sum_sha256 config ≡ config_hash.hex
  pub read_manifest : image.raw_manifest ≡ ok manifest

-- The blobs of the image are there.
pub record HasContents (sum_sha256 : Bytes → Bytes) (cache : Bytes) (layers : List Layer)
    (config_hash : Hash) (files : List (Bytes × Bytes)) : Type 0 where
  pub addressed : IsAddressed sum_sha256 cache files
  pub has_layers : All (KeepsLayer sum_sha256 cache files) layers
  pub has_config : IsKept sum_sha256 cache files config_hash.hex

module _ (sum_sha256 : Bytes → Bytes) (cache : Bytes) (image : Image)
    (sound : IsSoundImage sum_sha256 image) where
  pub config_path :
      local_blob_path cache (hash_string sound.config_hash)
      ≡ local_blob_path cache sound.config_hash.hex
  config_path =
      ap (λ a. local_blob_path cache (a ++ (codes ":" ++ sound.config_hash.hex))) sound.algorithm
      ∙ local_blob_path_sha256 cache sound.config_hash.hex sound.hex

  abbrev all_layers : M (Unit {0})
  all_layers = each (λ layer. save_layer layer cache) sound.layers

  abbrev config : M (Unit {0})
  config = write_file (local_blob_path cache sound.config_hash.hex) sound.config

  save_contents_steps :
      (d d1 : Disk) → all_layers d ≡ (ok nothing, d1) → save_contents cache image d ≡ config d1
  unfolding save_contents
  save_contents_steps d d1 e =
      simp (sound.read_layers, e, sound.read_config, sound.read_name)
        (ap (λ (p : Bytes). write_file p sound.config d1) config_path)

  -- What `save_contents` leaves.
  pub save_contents-Went :
      (d : Disk)
      → d.faults ≡ []
      → IsAddressed sum_sha256 cache d.files
      → Went d (save_contents cache image d)
        × HasContents sum_sha256 cache sound.layers sound.config_hash
            (save_contents cache image d).1.files
  save_contents-Went d calm a =
      let (w1, a1, kept) = save_layers-Went sum_sha256 cache sound.layers d calm sound.sound a in
      let d1 = (all_layers d).1 in
      let steps = save_contents_steps d d1 (Went-ok d (all_layers d) w1) in
      let fits =
        blob-Fits sum_sha256 cache sound.config_hash.hex sound.config sound.hex sound.summed in
      let path = local_blob_path cache sound.config_hash.hex in
      let (w2, a2, e2) = write_file-Went sum_sha256 cache path sound.config d1 w1.calm fits a1 in
      let eq : save_contents cache image d ≡ config d1 = steps in
      subst (λ r. Went d r × HasContents sum_sha256 cache sound.layers sound.config_hash r.1.files)
        (sym eq)
        (
          record {
            returned = w2.returned;
            calm = w2.calm;
            grows = λ p s e. let (s', e') = w1.grows p s e in w2.grows p s' e';
          },
          record {
            addressed = a2;
            has_layers =
                Grows-KeepsLayers sum_sha256 cache d1.files (config d1).1.files sound.layers
                  sound.sound a2 w2.grows kept;
            has_config = (sound.config, e2, sound.summed);
          },
        )

  pub Grows-HasContents :
      (files files' : List (Bytes × Bytes))
      → IsAddressed sum_sha256 cache files'
      → Grows files files'
      → HasContents sum_sha256 cache sound.layers sound.config_hash files
      → HasContents sum_sha256 cache sound.layers sound.config_hash files'
  Grows-HasContents files files' a g has = record {
    addressed = a;
    has_layers =
        Grows-KeepsLayers sum_sha256 cache files files' sound.layers sound.sound a g has.has_layers;
    has_config =
        Grows-IsKept sum_sha256 cache files files' sound.config_hash.hex sound.hex a g
          has.has_config;
  }

  module _ (cache_manifest : Bytes) (hex_digits : IsHex (sum_sha256 sound.manifest)) where
    save_manifest-Went :
        (name tag : Bytes) (d : Disk)
        → has_tag name tag ≡ true
        → d.faults ≡ []
        → HasContents sum_sha256 cache sound.layers sound.config_hash d.files
        → Went d (save_manifest sum_sha256 sound.manifest cache cache_manifest name tag d)
          × HasContents sum_sha256 cache sound.layers sound.config_hash
              (save_manifest sum_sha256 sound.manifest cache cache_manifest name tag d).1.files
    save_manifest-Went name tag d t calm has =
        let m = sound.manifest in
        let p1 = local_blob_path cache (sum_sha256 m) in
        let p2 = local_manifest_path cache_manifest name tag in
        let (w1, a1, _) =
          write_file-Went sum_sha256 cache p1 m d calm
            (blob-Fits sum_sha256 cache (sum_sha256 m) m hex_digits refl) has.addressed in
        let d1 = (write_file p1 m d).1 in
        let (w2, a2, _) =
          write_file-Went sum_sha256 cache p2 m d1 w1.calm
            (manifest-Fits sum_sha256 cache cache_manifest name tag m) a1 in
        let grows : Grows d.files (write_file p2 m d1).1.files =
          λ p s e. let (s', e') = w1.grows p s e in w2.grows p s' e' in
        subst
          (λ r. Went d r × HasContents sum_sha256 cache sound.layers sound.config_hash r.1.files)
          (sym (save_manifest_steps sum_sha256 m cache cache_manifest name tag d t calm))
          (
            record { returned = w2.returned; calm = w2.calm; grows = grows },
            Grows-HasContents d.files (write_file p2 m d1).1.files a2 grows has,
          )

    local_push_image_steps :
        (ref : Reference) (d d1 : Disk)
        → save_contents cache image d ≡ (ok nothing, d1)
        → local_push_image sum_sha256 cache cache_manifest ref image d
          ≡ save_manifest sum_sha256 sound.manifest cache cache_manifest ref.repository
              ref.identifier d1
    unfolding local_push_image
    local_push_image_steps ref d d1 e = simp (e, sound.read_manifest) refl

    -- With no fault, on a cache whose blobs have the contents that their paths name, the push under
    -- a tag of a sound image, the sum of whose manifest is in hexadecimal digits, returns no error.
    -- Afterwards the manifest is found under the tag and under its own digest, byte for byte; every
    -- layer and the configuration is found under its digest, with contents of that digest, whether
    -- it was written or was there before; every blob still has the contents that its path names;
    -- and no file that was there before has gone.
    pub local_push_image_complete :
        (ref : Reference) (d : Disk)
        → has_tag ref.repository ref.identifier ≡ true
        → d.faults ≡ []
        → IsAddressed sum_sha256 cache d.files
        → Went d (local_push_image sum_sha256 cache cache_manifest ref image d)
          × HasContents sum_sha256 cache sound.layers sound.config_hash
              (local_push_image sum_sha256 cache cache_manifest ref image d).1.files
          × (lookup
                (local_manifest_path cache_manifest ref.repository ref.identifier)
                (local_push_image sum_sha256 cache cache_manifest ref image d).1.files
              ≡ some sound.manifest)
          × (lookup
                (local_blob_path cache (sum_sha256 sound.manifest))
                (local_push_image sum_sha256 cache cache_manifest ref image d).1.files
              ≡ some sound.manifest)
    local_push_image_complete ref d t calm a =
        let (w1, has1) = save_contents-Went d calm a in
        let d1 = (save_contents cache image d).1 in
        let (w2, has2) = save_manifest-Went ref.repository ref.identifier d1 t w1.calm has1 in
        let (_, tagged, found) =
          save_manifest_found sum_sha256 sound.manifest cache cache_manifest ref.repository
            ref.identifier d1 t w1.calm in
        subst
          (λ r.
            Went d r
            × HasContents sum_sha256 cache sound.layers sound.config_hash r.1.files
            × (lookup (local_manifest_path cache_manifest ref.repository ref.identifier) r.1.files
                ≡ some sound.manifest)
            × (lookup (local_blob_path cache (sum_sha256 sound.manifest)) r.1.files
                ≡ some sound.manifest))
          (sym (local_push_image_steps ref d d1 (Went-ok d (save_contents cache image d) w1)))
          (
            record {
              returned = w2.returned;
              calm = w2.calm;
              grows = λ p s e. let (s', e') = w1.grows p s e in w2.grows p s' e';
            },
            has2,
            tagged,
            found,
          )
