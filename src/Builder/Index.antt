-- ===== src/Builder/Index.antt =====
-- pkg/builder/image_index.go: an index whose images are replaced.
use jitdi.Base.{Bool, true, Option, none, some, bytes_eq, ◌&&◌, not}
use jitdi.Exec.{Result, ok}
use jitdi.Exec.Pure.{◌>>=◌}
use jitdi.Config.{Platform}
use jitdi.Container.{Descriptor, Image, ImageIndex}

-- The functions of the package `mutate` on indexes.
pub record IndexOps : Type 0 where
  pub remove_manifests : ImageIndex → (Descriptor → Bool) → ImageIndex
  pub append_manifest : ImageIndex → Image → Descriptor → ImageIndex

pub record Index : Type 0 where
  pub base_image_index : ImageIndex
  pub image_index : ImageIndex

unfoldable pub new_image_index : ImageIndex → Index
new_image_index base = record { base_image_index = base; image_index = base }

-- The function that `RemoveImage` hands over.
unfoldable pub is_other_platform : Platform → Descriptor → Bool
unfolding bytes_eq
is_other_platform platform desc = elim desc.platform [
  | none ↦ true
  | some p ↦ not (bytes_eq p.os platform.os && bytes_eq p.architecture platform.architecture)
]

module _ (ops : IndexOps) where
  open ops use {remove_manifests, append_manifest}

  unfoldable pub clear_image : Index → Index
  clear_image i = record i { image_index = remove_manifests i.image_index (λ desc. true) }

  unfoldable pub remove_image : Platform → Index → Index
  unfolding is_other_platform
  remove_image platform i = record i {
    image_index = remove_manifests i.image_index (is_other_platform platform);
  }

  -- `AppendImage`: the image's manifest, digest and size, or the error of the first that fails.
  unfoldable pub append_image : Image → Option Platform → Index → Result Index
  append_image image platform i = do
    media_type ← image.manifest_media_type
    digest ← image.digest
    size ← image.size
    ok (record i {
      image_index =
          append_manifest i.image_index image
            (record { digest = digest; size = size; media_type = media_type; platform = platform });
    })
