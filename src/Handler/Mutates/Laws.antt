-- ===== src/Handler/Mutates/Laws.antt =====
-- pkg/handler/mutates.go and pkg/builder/image.go: the layers of a mutated image.
use jitdi.Base.{
  ◌≡◌, refl, sym, ap, ◌∙◌, subst, List, [], ◌∷◌, ◌++◌, append_assoc, append-nil, map, Bytes, codes,
  bytes_eq, Bool-cases, inl, inr, if◌then◌else◌, is_empty,
}
use jitdi.Exec.{ok}
use jitdi.Exec.Pure
use jitdi.Exec.Outcome.{IfOk, chain-IfOk, known-IfOk}
use jitdi.Container.{Layer}
use jitdi.Container
use jitdi.Builder.Tar
use jitdi.Builder.Image
use jitdi.Builder.Image.{
  LayerOps, Addendum, layer_media_type, append_layer, append_file_as_new_layer,
  append_file_as_new_layer_with_link, new_image, oci_manifest_schema1, oci_layer, docker_layer,
}
use jitdi.Handler.Mutates.{Sources, append_one, append_files, append_all}

-- What `mutate.Append` promises: the new layer comes behind the image's own.
abbrev pub AddsLayer : LayerOps → Type 0
AddsLayer ops =
    (img img' : Container.Image) (a : Addendum) (ls : List Layer)
    → ops.append img a ≡ ok img'
    → img.layers ≡ ok ls
    → img'.layers ≡ ok (ls ++ a.layer ∷ [])

-- The layer that a file becomes in an image of a media type: the archive of the file, behind a link
-- if links are kept.
unfoldable pub layer_of :
    {S : Type 0} → LayerOps → Sources S → Bytes → Bytes → (Tar.File → Bytes) → Tar.File → Layer
unfolding bytes_eq
layer_of ops sources media_type link_path link v =
    let layer =
      ops.tar_layer v
        (if bytes_eq media_type oci_manifest_schema1 then oci_layer else docker_layer) in
    if is_empty link_path then layer else sources.cache_layer (link v) layer

abbrev HasLayers : Bytes → List Layer → Image.Image → Type 0
HasLayers media_type ls i = (i.media_type ≡ media_type) × (i.image.layers ≡ ok ls)

module _ {S : Type 0} (ops : LayerOps) (sources : Sources S) (adds : AddsLayer ops) where
  append_layer-HasLayers :
      (i : Image.Image) (file : Tar.File) (layer : Layer) (media_type : Bytes) (ls : List Layer)
      → HasLayers media_type ls i
      → IfOk (HasLayers media_type (ls ++ layer ∷ [])) (append_layer ops i file layer)
  unfolding append_layer
  append_layer-HasLayers i file layer media_type ls (m, l) =
      let a : Addendum = record {
        layer = layer;
        author = codes "jitdi";
        created_by = codes "Add " ++ file.path;
      } in
      chain-IfOk (λ img'. ops.append i.image a ≡ ok img') (HasLayers media_type (ls ++ layer ∷ []))
        (λ img'. ok (record i { image = img' })) (λ img' e. (m, adds i.image img' a ls e l))
        (ops.append i.image a) (known-IfOk (ops.append i.image a))

  append_one-HasLayers :
      (link_path : Bytes) (link : Tar.File → Bytes) (v : Tar.File) (i : Image.Image)
      (ls : List Layer)
      → i.image.layers ≡ ok ls
      → IfOk
          (HasLayers i.media_type (ls ++ layer_of ops sources i.media_type link_path link v ∷ []))
          (append_one ops sources link_path (link v) v i)
  unfolding append_one append_file_as_new_layer append_file_as_new_layer_with_link layer_of
      layer_media_type
  append_one-HasLayers link_path link v i ls h = elim (Bool-cases (is_empty link_path)) [
    | inl e ↦ rw e (append_layer-HasLayers i v _ i.media_type ls (refl, h))
    | inr e ↦ rw e (append_layer-HasLayers i v _ i.media_type ls (refl, h))
  ]

  append_files-HasLayers :
      (link_path : Bytes) (link : Tar.File → Bytes) (fs : List Tar.File) (i : Image.Image)
      (media_type : Bytes) (ls : List Layer)
      → HasLayers media_type ls i
      → IfOk
          (HasLayers media_type (ls ++ map (layer_of ops sources media_type link_path link) fs))
          (append_files ops sources link_path link fs i)
  unfolding append_files
  append_files-HasLayers link_path link [] i media_type ls (m, l) =
      (m, l ∙ ap ok (sym (append-nil ls)))
  append_files-HasLayers link_path link (v ∷ fs) i media_type ls (m, l) =
      let layer = layer_of ops sources media_type link_path link in
      chain-IfOk (HasLayers media_type (ls ++ layer v ∷ []))
        (HasLayers media_type (ls ++ layer v ∷ map layer fs)) _
        (λ i' h.
          subst (λ r. IfOk (HasLayers media_type r) (append_files ops sources link_path link fs i'))
            (append_assoc ls (layer v ∷ []) (map layer fs))
            (append_files-HasLayers link_path link fs i' media_type (ls ++ layer v ∷ []) h))
        (append_one ops sources link_path (link v) v i)
        (subst
          (λ t.
            IfOk (HasLayers t (ls ++ layer_of ops sources t link_path link v ∷ []))
              (append_one ops sources link_path (link v) v i))
          m (append_one-HasLayers link_path link v i ls l))

  append_all-IfOk :
      (image : Container.Image) (link_path : Bytes) (link : Tar.File → Bytes) (fs : List Tar.File)
      (media_type : Bytes) (ls : List Layer)
      → image.media_type ≡ ok media_type
      → image.layers ≡ ok ls
      → IfOk
          (λ img. img.layers ≡ ok (ls ++ map (layer_of ops sources media_type link_path link) fs))
          (append_all ops sources image link_path link fs)
  unfolding append_all new_image
  append_all-IfOk image link_path link fs media_type ls m l =
      let ls' = ls ++ map (layer_of ops sources media_type link_path link) fs in
      let Q : Container.Image → Type 0 = λ img. img.layers ≡ ok ls' in
      chain-IfOk (HasLayers media_type ls) Q
        (λ img. Pure.◌>>=◌ (append_files ops sources link_path link fs img) (λ img'. ok img'.image))
        (λ img h.
          chain-IfOk (HasLayers media_type ls') Q (λ img'. ok img'.image) (λ img' h'. h'.1)
            (append_files ops sources link_path link fs img)
            (append_files-HasLayers link_path link fs img media_type ls h))
        (new_image image) (rw m (refl, l))

-- Where the library appends layers as it promises, an image that was mutated without an error has the
-- layers of the image before, unchanged, and behind them one layer for each file that was built, in
-- the files' order: its archive under the media type that goes with the image, behind a link if a
-- directory of links is configured.
pub append_all-layers :
    {S : Type 0} (ops : LayerOps) (sources : Sources S) (image img : Container.Image)
    (link_path : Bytes) (link : Tar.File → Bytes) (fs : List Tar.File) (media_type : Bytes)
    (ls : List Layer)
    → AddsLayer ops
    → image.media_type ≡ ok media_type
    → image.layers ≡ ok ls
    → append_all ops sources image link_path link fs ≡ ok img
    → img.layers ≡ ok (ls ++ map (layer_of ops sources media_type link_path link) fs)
append_all-layers ops sources image img link_path link fs media_type ls adds m l e =
    subst
      (IfOk
        (λ img. img.layers ≡ ok (ls ++ map (layer_of ops sources media_type link_path link) fs)))
      e (append_all-IfOk ops sources adds image link_path link fs media_type ls m l)
