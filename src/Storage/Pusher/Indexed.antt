-- ===== src/Storage/Pusher/Indexed.antt =====
-- pkg/storage/local.go: the pushes of the images of an index, and of the index itself, where no call
-- fails.
use jitdi.Base.{◌≡◌, refl, sym, subst, ap, ◌∙◌, false, true, some, List, [], ◌∷◌, Bytes, lookup}
use jitdi.Exec.{ok, nothing}
use jitdi.Exec.Outcome.{bind_ok}
use jitdi.Disk.{Disk}
use jitdi.Container.{Image, ImageIndex, Reference, Repository}
use jitdi.Atomic.Files.{write_file}
use jitdi.Storage.Paths.{local_blob_path, local_manifest_path, IsHex}
use jitdi.Storage.Layers.{has_tag, tag_manifest, save_manifest}
use jitdi.Storage.Layers.Addressed.{IsAddressed}
use jitdi.Storage.Pusher.{save_contents, local_push_image_with_index, local_push_image_index}
use jitdi.Storage.Pusher.Local.{save_manifest_steps}
use jitdi.Storage.Pusher.Steps.{
  Grows, Went, Went-ok, IsKept, Grows-IsKept, blob-Fits, manifest-Fits, write_file-Went,
}
use jitdi.Storage.Pusher.Complete.{IsSoundImage, HasContents, save_contents-Went, Grows-HasContents}

no_tag : (name : Bytes) → has_tag name [] ≡ false
no_tag [] = refl
no_tag (c ∷ name) = refl

module _ (sum_sha256 : Bytes → Bytes) (cache cache_manifest : Bytes) where
  -- The image's blobs and its manifest are there.
  pub record HasImage (image : Image) (sound : IsSoundImage sum_sha256 image)
      (files : List (Bytes × Bytes)) : Type 0 where
    pub contents : HasContents sum_sha256 cache sound.layers sound.config_hash files
    pub manifest : IsKept sum_sha256 cache files (sum_sha256 sound.manifest)

  pub Grows-HasImage :
      (image : Image) (sound : IsSoundImage sum_sha256 image) (files files' : List (Bytes × Bytes))
      → IsHex (sum_sha256 sound.manifest)
      → IsAddressed sum_sha256 cache files'
      → Grows files files'
      → HasImage image sound files
      → HasImage image sound files'
  Grows-HasImage image sound files files' hex a g has = record {
    contents = Grows-HasContents sum_sha256 cache image sound files files' a g has.contents;
    manifest =
        Grows-IsKept sum_sha256 cache files files' (sum_sha256 sound.manifest) hex a g has.manifest;
  }

  untagged_steps :
      (m name : Bytes) (d : Disk)
      → (write_file (local_blob_path cache (sum_sha256 m)) m d).0 ≡ ok nothing
      → save_manifest sum_sha256 m cache cache_manifest name [] d
        ≡ (ok nothing, (write_file (local_blob_path cache (sum_sha256 m)) m d).1)
  unfolding save_manifest tag_manifest
  untagged_steps m name d e =
      let d1 = (write_file (local_blob_path cache (sum_sha256 m)) m d).1 in
      bind_ok (write_file (local_blob_path cache (sum_sha256 m)) m)
        (λ _. tag_manifest m cache_manifest name []) {s = d} (ap (λ r. (r, d1)) e)
      ∙ rw (no_tag name) refl

  with_index_steps :
      (image : Image) (sound : IsSoundImage sum_sha256 image) (repo : Repository) (d d1 : Disk)
      → save_contents cache image d ≡ (ok nothing, d1)
      → local_push_image_with_index sum_sha256 cache cache_manifest repo image d
        ≡ save_manifest sum_sha256 sound.manifest cache cache_manifest repo.repository [] d1
  unfolding local_push_image_with_index
  with_index_steps image sound repo d d1 e = simp (e, sound.read_manifest) refl

  -- With no fault the push of a sound image of an index leaves its blobs and its manifest.
  pub local_push_image_with_index-HasImage :
      (image : Image) (sound : IsSoundImage sum_sha256 image) (repo : Repository) (d : Disk)
      → d.faults ≡ []
      → IsHex (sum_sha256 sound.manifest)
      → IsAddressed sum_sha256 cache d.files
      → Went d (local_push_image_with_index sum_sha256 cache cache_manifest repo image d)
        × HasImage image sound
            (local_push_image_with_index sum_sha256 cache cache_manifest repo image d).1.files
  local_push_image_with_index-HasImage image sound repo d calm hex a =
      let m = sound.manifest in
      let (w1, has1) = save_contents-Went sum_sha256 cache image sound d calm a in
      let d1 = (save_contents cache image d).1 in
      let (w2, a2, found) =
        write_file-Went sum_sha256 cache (local_blob_path cache (sum_sha256 m)) m d1 w1.calm
          (blob-Fits sum_sha256 cache (sum_sha256 m) m hex refl) has1.addressed in
      let d2 = (write_file (local_blob_path cache (sum_sha256 m)) m d1).1 in
      subst (λ r. Went d r × HasImage image sound r.1.files)
        (sym (
          with_index_steps image sound repo d d1 (Went-ok d (save_contents cache image d) w1)
          ∙ untagged_steps m repo.repository d1 w2.returned))
        (
          record {
            returned = refl;
            calm = w2.calm;
            grows = λ p s e. let (s', e') = w1.grows p s e in w2.grows p s' e';
          },
          record {
            contents =
                Grows-HasContents sum_sha256 cache image sound d1.files d2.files a2 w2.grows has1;
            manifest = (m, found, refl);
          },
        )

  index_steps :
      (index : ImageIndex) (m : Bytes) (ref : Reference) (d : Disk)
      → index.raw_manifest ≡ ok m
      → local_push_image_index sum_sha256 cache cache_manifest ref index d
        ≡ save_manifest sum_sha256 m cache cache_manifest ref.repository ref.identifier d
  unfolding local_push_image_index
  index_steps index m ref d e = simp e refl

  -- With no fault the push of an index leaves its manifest under its tag.
  pub local_push_image_index-Went :
      (index : ImageIndex) (m : Bytes) (ref : Reference) (d : Disk)
      → index.raw_manifest ≡ ok m
      → has_tag ref.repository ref.identifier ≡ true
      → d.faults ≡ []
      → IsHex (sum_sha256 m)
      → IsAddressed sum_sha256 cache d.files
      → Went d (local_push_image_index sum_sha256 cache cache_manifest ref index d)
        × IsAddressed sum_sha256 cache
            (local_push_image_index sum_sha256 cache cache_manifest ref index d).1.files
        × (lookup
              (local_manifest_path cache_manifest ref.repository ref.identifier)
              (local_push_image_index sum_sha256 cache cache_manifest ref index d).1.files
            ≡ some m)
  local_push_image_index-Went index m ref d e t calm hex a =
      let p1 = local_blob_path cache (sum_sha256 m) in
      let p2 = local_manifest_path cache_manifest ref.repository ref.identifier in
      let (w1, a1, _) =
        write_file-Went sum_sha256 cache p1 m d calm
          (blob-Fits sum_sha256 cache (sum_sha256 m) m hex refl) a in
      let d1 = (write_file p1 m d).1 in
      let (w2, a2, found) =
        write_file-Went sum_sha256 cache p2 m d1 w1.calm
          (manifest-Fits sum_sha256 cache cache_manifest ref.repository ref.identifier m) a1 in
      let grows : Grows d.files (write_file p2 m d1).1.files =
        λ p s e. let (s', e') = w1.grows p s e in w2.grows p s' e' in
      subst
        (λ r. Went d r × IsAddressed sum_sha256 cache r.1.files × (lookup p2 r.1.files ≡ some m))
        (sym (
          index_steps index m ref d e
          ∙ save_manifest_steps sum_sha256 m cache cache_manifest ref.repository ref.identifier d t
              calm))
        (record { returned = w2.returned; calm = w2.calm; grows = grows }, a2, found)
