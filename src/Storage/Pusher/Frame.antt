-- ===== src/Storage/Pusher/Frame.antt =====
-- pkg/storage/local.go: a push of a sound image leaves every manifest but its own alone.
use jitdi.Base.{
  ◌≡◌, ◌≢◌, refl, sym, subst, ap, ◌∙◌, false, Option, All, List, [], ◌∷◌, arith, Bytes, lookup,
  lookup-insert, bytes_eq, bytes_eq_iff, Bool-cases, inl, inr,
}
use jitdi.Exec.{Result, ok, err}
use jitdi.Container.{Hash, hash_string, Image, ImageIndex, Layer, Reference}
use jitdi.Disk.{Disk}
use jitdi.Disk.Laws.{Ensures, bind-Ensures, lift-Ensures, OnFiles}
use jitdi.Atomic.Files.{write_file}
use jitdi.Atomic.Files.Outcomes.{write_file-OnFiles}
use jitdi.Storage.Paths.{
  local_blob_path, local_manifest_path, IsHex, local_manifest_path-ne-local_blob_path,
}
use jitdi.Storage.Layers.{has_tag, tag_manifest, save_manifest}
use jitdi.Storage.Layers.Saved.{IsSound, sound_digest-IsHex}
use jitdi.Storage.Pusher.{save_contents, local_push_image, local_push_image_index}
use jitdi.Storage.Pusher.Local.{IsApart, AreApart, save_contents-At}
use jitdi.Storage.Pusher.Complete.{IsSoundImage, config_path}

bytes_eq-false : (a b : Bytes) → a ≢ b → bytes_eq a b ≡ false
bytes_eq-false a b ne = elim (Bool-cases (bytes_eq a b)) [
  | inl e ↦ absurd (ne ((bytes_eq_iff a b).0 e))
  | inr e ↦ e
]

abbrev value : {A : Type 0} → A → Result A → A
value a (ok b) = b
value a (err e) = a

module _ (p : Bytes) (o : Option Bytes) where
  abbrev At : Disk → Type 0
  At = OnFiles (λ files. lookup p files ≡ o)

  write_file-At : (q s : Bytes) → bytes_eq q p ≡ false → Ensures At (write_file q s) (λ _. At)
  write_file-At q s apart =
      write_file-OnFiles (λ files. lookup p files ≡ o) q
        (λ s files e. ground (arith, e, apart, lookup-insert q p s files)) s

  tag_manifest-At :
      (blob cm name tag : Bytes)
      → bytes_eq (local_manifest_path cm name tag) p ≡ false
      → Ensures At (tag_manifest blob cm name tag) (λ _. At)
  unfolding tag_manifest
  tag_manifest-At blob cm name tag apart = elim (Bool-cases (has_tag name tag)) [
    | inl e ↦ rw e (write_file-At (local_manifest_path cm name tag) blob apart)
    | inr e ↦ rw e (λ d g. g)
  ]

  save_manifest-At :
      (sum : Bytes → Bytes) (blob cb cm name tag : Bytes)
      → bytes_eq (local_blob_path cb (sum blob)) p ≡ false
      → bytes_eq (local_manifest_path cm name tag) p ≡ false
      → Ensures At (save_manifest sum blob cb cm name tag) (λ _. At)
  unfolding save_manifest
  save_manifest-At sum blob cb cm name tag apart apart' =
      bind-Ensures At (λ _. At) (λ _. At) (write_file (local_blob_path cb (sum blob)) blob) _
        (write_file-At (local_blob_path cb (sum blob)) blob apart)
        (λ _. tag_manifest-At blob cm name tag apart') (λ _ d g. g)

  local_push_image-At :
      (sum : Bytes → Bytes) (cb cm : Bytes) (ref : Reference) (image : Image) (blob : Bytes)
      → image.raw_manifest ≡ ok blob
      → AreApart cb p image
      → bytes_eq (local_blob_path cb (sum blob)) p ≡ false
      → bytes_eq (local_manifest_path cm ref.repository ref.identifier) p ≡ false
      → Ensures At (local_push_image sum cb cm ref image) (λ _. At)
  unfolding local_push_image
  local_push_image-At sum cb cm ref image blob read apart apart' apart'' =
      bind-Ensures At (λ _. At) (λ _. At) (save_contents cb image) _
        (save_contents-At cb p o image apart)
        (λ _.
          lift-Ensures At (λ _. At) image.raw_manifest _
            (λ m e.
              save_manifest-At sum m cb cm ref.repository ref.identifier
                (subst (λ m. bytes_eq (local_blob_path cb (sum m)) p ≡ false)
                  (ap (value []) (sym read ∙ e)) apart')
                apart'')
            (λ _ d g. g))
        (λ _ d g. g)

module _ (sum : Bytes → Bytes) (cb cm name tag : Bytes) where
  abbrev path : Bytes
  path = local_manifest_path cm name tag

  blob_apart : (h : Bytes) → IsHex h → bytes_eq (local_blob_path cb h) path ≡ false
  blob_apart h hex =
      bytes_eq-false (local_blob_path cb h) path
        (λ e. local_manifest_path-ne-local_blob_path cm name tag cb h hex (sym e))

  layers-IsApart : (layers : List Layer) → All (IsSound sum) layers → All (IsApart cb path) layers
  layers-IsApart [] sound = tt
  layers-IsApart (layer ∷ layers) (s, sound) =
      (λ h e. blob_apart h.hex (sound_digest-IsHex sum layer s h e), layers-IsApart layers sound)

  sound-AreApart : (image : Image) → IsSoundImage sum image → AreApart cb path image
  sound-AreApart image sound = (
    λ layers e.
        subst (All (IsApart cb path)) (ap (value []) (sym sound.read_layers ∙ e))
          (layers-IsApart sound.layers sound.sound),
    λ h e.
        subst (λ (h : Hash). bytes_eq (local_blob_path cb (hash_string h)) path ≡ false)
          (ap (value sound.config_hash) (sym sound.read_name ∙ e))
          (ap (λ q. bytes_eq q path) (config_path sum cb image sound)
            ∙ blob_apart sound.config_hash.hex sound.hex),
  )

  -- The push of a sound image changes no manifest that lies elsewhere than the image's own.
  pub local_push_image_elsewhere :
      (ref : Reference) (image : Image) (sound : IsSoundImage sum image) (d : Disk)
      → IsHex (sum sound.manifest)
      → bytes_eq (local_manifest_path cm ref.repository ref.identifier) path ≡ false
      → lookup path (local_push_image sum cb cm ref image d).1.files ≡ lookup path d.files
  local_push_image_elsewhere ref image sound d hex apart =
      local_push_image-At path (lookup path d.files) sum cb cm ref image sound.manifest
        sound.read_manifest (sound-AreApart image sound) (blob_apart (sum sound.manifest) hex) apart
        d refl

  -- Neither does the push of an index.
  pub local_push_image_index_elsewhere :
      (ref : Reference) (index : ImageIndex) (blob : Bytes) (d : Disk)
      → index.raw_manifest ≡ ok blob
      → IsHex (sum blob)
      → bytes_eq (local_manifest_path cm ref.repository ref.identifier) path ≡ false
      → lookup path (local_push_image_index sum cb cm ref index d).1.files ≡ lookup path d.files
  unfolding local_push_image_index
  local_push_image_index_elsewhere ref index blob d read hex apart =
      let P : Disk → Type 0 = OnFiles (λ files. lookup path files ≡ lookup path d.files) in
      lift-Ensures P (λ _. P) index.raw_manifest _
        (λ m e.
          save_manifest-At path (lookup path d.files) sum m cb cm ref.repository ref.identifier
            (blob_apart (sum m) (subst (λ m. IsHex (sum m)) (ap (value []) (sym read ∙ e)) hex))
            apart)
        (λ _ d g. g) d refl
