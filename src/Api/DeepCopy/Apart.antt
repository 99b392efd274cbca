-- ===== src/Api/DeepCopy/Apart.antt =====
-- pkg/apis/v1alpha1/zz_generated.deepcopy.go: a deep copy stands for the same object, and shares no
-- memory with it.
use jitdi.Base.{ℕ, some}
use jitdi.Api.{ImageList, RegistryList}
use jitdi.Api.Memory.{Library, Cell, in_memory, image_list_cell, registry_list_cell}
use jitdi.Api.DeepCopy.{
  LibraryCopies, image_list_into, registry_list_into, image_list_deep_copy_object,
  registry_list_deep_copy_object, image_list_deep_copy, registry_list_deep_copy,
}
use jitdi.Api.DeepCopy.Copies.{Memory, Below}
use jitdi.Api.DeepCopy.Meaning.{Meaning, CopiesDeeply, F, ImageListFor, RegistryListFor}
use jitdi.Api.DeepCopy.Parts.{Pointed, IsApart, copied-IsApart}
use jitdi.Api.DeepCopy.Objects.{image_list_into-IsCopy, registry_list_into-IsCopy}

module _ (L : Library) (m : Meaning L) (copies : LibraryCopies L)
    (library : CopiesDeeply L m copies) where
  -- Whatever is written later to the memory of an image list or to that of its deep copy: the copy
  -- returns no error and not nil, and stands for the same list, item by item and with what their
  -- pointers and slices hold, when all the memory that was in use before has been overwritten; and the
  -- original does so when all the memory that the copy took has been. What the library's metadata stands
  -- for, and that it copies that deeply, are the library's.
  pub image_list_deep_copy-IsApart :
      (h : Memory L) (p : ℕ) (t : ImageList (F L m)) (w : ℕ → Cell (in_memory L) L.Other)
      → Pointed L (ImageListFor L m) image_list_cell (Below h.next) h (some p) (some t)
      → IsApart L
          (ImageListFor L m)
          image_list_cell
          h.next
          p
          t
          w
          (image_list_deep_copy_object copies (some p) h)
  unfolding image_list_deep_copy_object image_list_deep_copy
  image_list_deep_copy-IsApart h p t w r =
      copied-IsApart L (ImageListFor L m) (image_list_into copies)
        (image_list_into-IsCopy L m copies library) image_list_cell h p t w r

  -- The same of a list of registries, down to their credentials.
  pub registry_list_deep_copy-IsApart :
      (h : Memory L) (p : ℕ) (t : RegistryList (F L m)) (w : ℕ → Cell (in_memory L) L.Other)
      → Pointed L (RegistryListFor L m) registry_list_cell (Below h.next) h (some p) (some t)
      → IsApart L
          (RegistryListFor L m)
          registry_list_cell
          h.next
          p
          t
          w
          (registry_list_deep_copy_object copies (some p) h)
  unfolding registry_list_deep_copy_object registry_list_deep_copy
  registry_list_deep_copy-IsApart h p t w r =
      copied-IsApart L (RegistryListFor L m) (registry_list_into copies)
        (registry_list_into-IsCopy L m copies library) registry_list_cell h p t w r
