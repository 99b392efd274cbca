-- ===== src/Storage/Pusher/Local.antt =====
-- pkg/storage/local.go: what the pushes into the cache directory leave there.
use jitdi.Base.{
  ◌≡◌, ap, ◌∙◌, true, false, All, List, [], ◌∷◌, Option, some, arith, Bytes, lookup, insert,
  lookup-insert, bytes_eq, bytes_eq_refl,
}
use jitdi.Exec.{ok, continue, ◌>>=◌, ◌>>◌, lift, nothing}
use jitdi.Container.{Hash, hash_string, Image, Layer}
use jitdi.Disk.{Disk, M}
use jitdi.Disk.Laws.{Ensures, bind-Ensures, lift-Ensures, OnFiles}
use jitdi.Atomic.Files.{write_file}
use jitdi.Atomic.Files.Outcomes.{write_file-OnFiles, write_file_no_fault, write_file-faults}
use jitdi.Storage.Paths.{local_blob_path, local_manifest_path}
use jitdi.Storage.Layers.{save_layer, has_tag, tag_manifest, save_manifest}
use jitdi.Storage.Layers.Addressed.{save_layer-OnFiles}
use jitdi.Storage.Pusher.{each, save_contents}

each-OnFiles :
    (F : List (Bytes × Bytes) → Type 0) {A : Type 0} (P : A → Type 0) (f : A → M (Unit {0}))
    → ((x : A) → P x → Ensures (OnFiles F) (f x) (λ _. OnFiles F))
    → (xs : List A) → All P xs
    → Ensures (OnFiles F) (each f xs) (λ _. OnFiles F)
unfolding each
each-OnFiles F P f h [] a d g = g
each-OnFiles F P f h (x ∷ xs) (a, as_) d g =
    bind-Ensures (OnFiles F) (λ _. OnFiles F) (λ _. OnFiles F) (f x) (λ _. each f xs) (h x a)
      (λ _. each-OnFiles F P f h xs as_) (λ _ d g. g) d g

-- The layer's blob, if it has a digest, lies elsewhere than at `p`.
abbrev pub IsApart : Bytes → Bytes → Layer → Type 0
IsApart cache p layer =
    (h : Hash) → layer.digest true ≡ ok h → bytes_eq (local_blob_path cache h.hex) p ≡ false

-- The layers and the configuration of an image lie elsewhere than at `p`.
abbrev pub AreApart : Bytes → Bytes → Image → Type 0
AreApart cache p image =
    ((layers : List Layer) → image.layers ≡ ok layers → All (IsApart cache p) layers)
    × ((h : Hash)
        → image.config_name ≡ ok h
        → bytes_eq (local_blob_path cache (hash_string h)) p ≡ false)

module _ (cache p : Bytes) (o : Option Bytes) where
  abbrev At : List (Bytes × Bytes) → Type 0
  At files = lookup p files ≡ o

  insert-At :
      (q s : Bytes) (files : List (Bytes × Bytes))
      → bytes_eq q p ≡ false
      → At files
      → At (insert q s files)
  insert-At q s files apart e = ground (arith, e, apart, lookup-insert q p s files)

  save_config-At :
      (image : Image) (config_blob : Bytes)
      → AreApart cache p image
      → Ensures
          (OnFiles At)
          (lift image.config_name
            >>= (λ h. write_file (local_blob_path cache (hash_string h)) config_blob))
          (λ _. OnFiles At)
  save_config-At image config_blob apart =
      lift-Ensures (OnFiles At) (λ _. OnFiles At) image.config_name _
        (λ h e.
          write_file-OnFiles At (local_blob_path cache (hash_string h))
            (λ s files. insert-At (local_blob_path cache (hash_string h)) s files (apart.1 h e))
            config_blob)
        (λ _ d g. g)

  save_layers-At :
      (image : Image) (layers : List Layer)
      → AreApart cache p image
      → image.layers ≡ ok layers
      → Ensures (OnFiles At) (each (λ layer. save_layer layer cache) layers) (λ _. OnFiles At)
  save_layers-At image layers apart e =
      each-OnFiles At (IsApart cache p) (λ layer. save_layer layer cache)
        (λ layer a.
          save_layer-OnFiles At layer cache
            (λ h c k _ files. insert-At (local_blob_path cache h.hex) c files (a h k)))
        layers (apart.0 layers e)

  pub save_contents-At :
      (image : Image)
      → AreApart cache p image
      → Ensures (OnFiles At) (save_contents cache image) (λ _. OnFiles At)
  unfolding save_contents
  save_contents-At image apart =
      lift-Ensures (OnFiles At) (λ _. OnFiles At) image.layers _
        (λ layers e.
          bind-Ensures (OnFiles At) (λ _. OnFiles At) (λ _. OnFiles At)
            (each (λ layer. save_layer layer cache) layers) _ (save_layers-At image layers apart e)
            (λ _.
              lift-Ensures (OnFiles At) (λ _. OnFiles At) image.raw_config_file _
                (λ config_blob _. save_config-At image config_blob apart) (λ _ d g. g))
            (λ _ d g. g))
        (λ _ d g. g)

write_then :
    (p contents : Bytes) (d : Disk) (m : M (Unit {0}))
    → d.faults ≡ []
    → (write_file p contents >> m) d ≡ m (write_file p contents d).1
write_then p contents d m h =
    ap (λ r. continue (λ _. m) (r, (write_file p contents d).1))
      (write_file_no_fault p contents d h).0

tag_manifest_tagged :
    (manifest_blob cache_manifest name tag : Bytes)
    → has_tag name tag ≡ true
    → tag_manifest manifest_blob cache_manifest name tag
      ≡ write_file (local_manifest_path cache_manifest name tag) manifest_blob
unfolding tag_manifest
tag_manifest_tagged blob cm name tag t = rw t

pub save_manifest_steps :
    (sum_sha256 : Bytes → Bytes) (manifest_blob cache_blobs cache_manifest name tag : Bytes)
    (d : Disk)
    → has_tag name tag ≡ true
    → d.faults ≡ []
    → save_manifest sum_sha256 manifest_blob cache_blobs cache_manifest name tag d
      ≡ write_file
          (local_manifest_path cache_manifest name tag)
          manifest_blob
          (write_file (local_blob_path cache_blobs (sum_sha256 manifest_blob)) manifest_blob d).1
unfolding save_manifest
save_manifest_steps sum blob cb cm name tag d t h =
    write_then (local_blob_path cb (sum blob)) blob d (tag_manifest blob cm name tag) h
    ∙ ap (λ (m : M (Unit {0})). m (write_file (local_blob_path cb (sum blob)) blob d).1)
        (tag_manifest_tagged blob cm name tag t)

pub save_manifest-faults :
    (sum_sha256 : Bytes → Bytes) (manifest_blob cache_blobs cache_manifest name tag : Bytes)
    (d : Disk)
    → has_tag name tag ≡ true
    → d.faults ≡ []
    → (save_manifest sum_sha256 manifest_blob cache_blobs cache_manifest name tag d).1.faults ≡ []
save_manifest-faults sum blob cb cm name tag d t h =
    let d1 = (write_file (local_blob_path cb (sum blob)) blob d).1 in
    rw (save_manifest_steps sum blob cb cm name tag d t h) (
      write_file-faults (local_manifest_path cm name tag) blob d1
        (write_file-faults (local_blob_path cb (sum blob)) blob d h))

-- With no fault, a tagged manifest is then found under its tag and under its digest, byte for byte, and
-- no error is returned.
pub save_manifest_found :
    (sum_sha256 : Bytes → Bytes) (manifest_blob cache_blobs cache_manifest name tag : Bytes)
    (d : Disk)
    → has_tag name tag ≡ true
    → d.faults ≡ []
    → ((save_manifest sum_sha256 manifest_blob cache_blobs cache_manifest name tag d).0
        ≡ ok nothing)
      × (lookup
            (local_manifest_path cache_manifest name tag)
            (save_manifest sum_sha256 manifest_blob cache_blobs cache_manifest name tag d).1.files
          ≡ some manifest_blob)
      × (lookup
            (local_blob_path cache_blobs (sum_sha256 manifest_blob))
            (save_manifest sum_sha256 manifest_blob cache_blobs cache_manifest name tag d).1.files
          ≡ some manifest_blob)
save_manifest_found sum blob cb cm name tag d t h =
    let p1 = local_blob_path cb (sum blob) in
    let p2 = local_manifest_path cm name tag in
    let d1 = (write_file p1 blob d).1 in
    let w1 = write_file_no_fault p1 blob d h in
    let w2 = write_file_no_fault p2 blob d1 (write_file-faults p1 blob d h) in
    rw (save_manifest_steps sum blob cb cm name tag d t h) (
      w2.0,
      ground (arith, w2.1 p2, bytes_eq_refl p2),
      ground (arith, w2.1 p1, w1.1 p1, bytes_eq_refl p1),
    )
