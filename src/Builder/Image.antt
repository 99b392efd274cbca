-- ===== src/Builder/Image.antt =====
-- pkg/builder/image.go: an image that layers are appended to.
use jitdi.Base.{◌++◌, Bytes, codes, bytes_eq, if◌then◌else◌}
use jitdi.Exec.{Result, ok}
use jitdi.Exec.Pure.{◌>>=◌}
use jitdi.Builder.Tar.{File}
use jitdi.Container.{Layer}
use jitdi.Container

-- `mutate.Addendum` with the two fields of its `v1.History` that are set.
pub record Addendum : Type 0 where
  pub layer : Layer
  pub author : Bytes
  pub created_by : Bytes

-- `stream.NewLayer` of the tar archive of one file, and `mutate.Append`.
pub record LayerOps : Type 0 where
  pub tar_layer : File → Bytes → Layer
  pub append : Container.Image → Addendum → Result Container.Image

pub record Image : Type 0 where
  pub base_image : Container.Image
  pub image : Container.Image
  pub media_type : Bytes

unfoldable pub new_image : Container.Image → Result Image
new_image base = do
  media_type ← base.media_type
  ok (record { base_image = base; image = base; media_type = media_type })

abbrev pub oci_manifest_schema1 : Bytes
oci_manifest_schema1 = codes "application/vnd.oci.image.manifest.v1+json"

abbrev pub oci_layer : Bytes
oci_layer = codes "application/vnd.oci.image.layer.v1.tar+gzip"

abbrev pub docker_layer : Bytes
docker_layer = codes "application/vnd.docker.image.rootfs.diff.tar.gzip"

-- The default and the case of a Docker manifest have the same layers.
unfoldable pub layer_media_type : Image → Bytes
unfolding bytes_eq
layer_media_type i = if bytes_eq i.media_type oci_manifest_schema1 then oci_layer else docker_layer

module _ (ops : LayerOps) where
  open ops use {tar_layer, append}

  unfoldable pub append_layer : Image → File → Layer → Result Image
  append_layer i file layer = do
    img ←
        append i.image
          (record { layer = layer; author = codes "jitdi"; created_by = codes "Add " ++ file.path })
    ok (record i { image = img })

  unfoldable pub append_file_as_new_layer : File → Image → Result Image
  unfolding layer_media_type append_layer
  append_file_as_new_layer file i = append_layer i file (tar_layer file (layer_media_type i))

  -- `cache_layer` is `NewCacheFileLayer`.
  unfoldable pub append_file_as_new_layer_with_link :
      (Bytes → Layer → Layer) → File → Bytes → Image → Result Image
  unfolding layer_media_type append_layer
  append_file_as_new_layer_with_link cache_layer file link i =
      append_layer i file (cache_layer link (tar_layer file (layer_media_type i)))
