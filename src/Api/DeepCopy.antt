-- ===== src/Api/DeepCopy.antt =====
-- pkg/apis/v1alpha1/zz_generated.deepcopy.go: the deep copies of the objects.
pub mod Copies
pub mod Parts
pub mod Meaning
pub mod Specs
pub mod Objects
pub mod Apart
use jitdi.Base.{ℕ, Option, none, some, List, [], ◌∷◌}
use jitdi.Exec.{Exec, ◌>>=◌, ◌>>◌, pure}
use jitdi.Config.{Platform, File, Ollama, BaseAuth}
use jitdi.Api.{
  Authentication, Condition, Mutate, ImageSpec, ImageStatus, Image, ImageList, RegistrySpec,
  RegistryStatus, Registry, RegistryList,
}
use jitdi.Api.Memory.{
  Addr, Library, in_memory, Heap, Kind, new, read_at, write_at, base_auth_cell, authentication_cell,
  file_cell, ollama_cell, mutate_cell, platform_cell, image_spec_cell, registry_spec_cell,
  condition_cell, image_status_cell, image_cell, image_list_cell, registry_status_cell,
  registry_cell, registry_list_cell, mutates_cell, platforms_cell, conditions_cell, images_cell,
  registries_cell,
}

abbrev pub M : Library → Type 0 → Type 0
M L A = Exec (Heap (in_memory L) L.Other) A

-- The library's own `DeepCopyInto`.
pub record LibraryCopies (L : Library) : Type 1 where
  pub copy_time : L.Time → L.Time
  pub copy_object_meta : L.ObjectMeta → M L L.ObjectMeta
  pub copy_list_meta : L.ListMeta → M L L.ListMeta

-- `in.DeepCopyInto(out)` is a function from `*in` to what it leaves in `*out`.
module _ {L : Library} {A : Type 0} where
  -- Where `in` is not nil: `*out = new(…)` or `make`, and `into` from `*in` to `*out`.
  unfoldable pub copy_pointer : Kind (in_memory L) L.Other A → (A → M L A) → Addr A → M L (Addr A)
  unfolding new read_at write_at
  copy_pointer kind into none = pure none
  copy_pointer kind into (some p) = do
    q ← new
    a ← read_at kind p
    a' ← into a
    write_at kind q a'
    pure (some q)

  -- `for i := range *in`
  unfoldable pub each_into : (A → M L A) → List A → M L (List A)
  each_into into [] = pure []
  each_into into (a ∷ as_) = do a' ← into a; rest ← each_into into as_; pure (a' ∷ rest)

module _ {L : Library} where
  unfoldable pub base_auth_into : BaseAuth → M L BaseAuth
  base_auth_into a = pure a

  unfoldable pub file_into : File → M L File
  file_into a = pure a

  unfoldable pub ollama_into : Ollama → M L Ollama
  ollama_into a = pure a

  unfoldable pub platform_into : Platform → M L Platform
  platform_into a = pure a

  -- `copy(*out, *in)`
  unfoldable pub copy_platforms : List Platform → M L (List Platform)
  copy_platforms a = pure a

  unfoldable pub authentication_into :
      Authentication (in_memory L) → M L (Authentication (in_memory L))
  unfolding copy_pointer base_auth_into
  authentication_into a = do
    base_auth ← copy_pointer base_auth_cell base_auth_into a.base_auth
    pure (record a { base_auth = base_auth })

  unfoldable pub mutate_into : Mutate (in_memory L) → M L (Mutate (in_memory L))
  unfolding copy_pointer file_into ollama_into
  mutate_into a = do
    file ← copy_pointer file_cell file_into a.file
    ollama ← copy_pointer ollama_cell ollama_into a.ollama
    pure (record a { file = file; ollama = ollama })

  unfoldable pub image_spec_into : ImageSpec (in_memory L) → M L (ImageSpec (in_memory L))
  unfolding copy_pointer each_into mutate_into copy_platforms
  image_spec_into a = do
    mutates ← copy_pointer mutates_cell (each_into mutate_into) a.mutates
    platforms ← copy_pointer platforms_cell copy_platforms a.platforms
    pure (record a { mutates = mutates; platforms = platforms })

  unfoldable pub registry_spec_into : RegistrySpec (in_memory L) → M L (RegistrySpec (in_memory L))
  unfolding copy_pointer authentication_into
  registry_spec_into a = do
    authentication ← copy_pointer authentication_cell authentication_into a.authentication
    pure (record a { authentication = authentication })

  -- `in.DeepCopy()`
  unfoldable pub base_auth_deep_copy : Addr BaseAuth → M L (Addr BaseAuth)
  unfolding copy_pointer base_auth_into
  base_auth_deep_copy a = copy_pointer base_auth_cell base_auth_into a

  unfoldable pub authentication_deep_copy :
      Addr (Authentication (in_memory L)) → M L (Addr (Authentication (in_memory L)))
  unfolding copy_pointer authentication_into
  authentication_deep_copy a = copy_pointer authentication_cell authentication_into a

  unfoldable pub file_deep_copy : Addr File → M L (Addr File)
  unfolding copy_pointer file_into
  file_deep_copy a = copy_pointer file_cell file_into a

  unfoldable pub ollama_deep_copy : Addr Ollama → M L (Addr Ollama)
  unfolding copy_pointer ollama_into
  ollama_deep_copy a = copy_pointer ollama_cell ollama_into a

  unfoldable pub mutate_deep_copy : Addr (Mutate (in_memory L)) → M L (Addr (Mutate (in_memory L)))
  unfolding copy_pointer mutate_into
  mutate_deep_copy a = copy_pointer mutate_cell mutate_into a

  unfoldable pub platform_deep_copy : Addr Platform → M L (Addr Platform)
  unfolding copy_pointer platform_into
  platform_deep_copy a = copy_pointer platform_cell platform_into a

  unfoldable pub image_spec_deep_copy :
      Addr (ImageSpec (in_memory L)) → M L (Addr (ImageSpec (in_memory L)))
  unfolding copy_pointer image_spec_into
  image_spec_deep_copy a = copy_pointer image_spec_cell image_spec_into a

  unfoldable pub registry_spec_deep_copy :
      Addr (RegistrySpec (in_memory L)) → M L (Addr (RegistrySpec (in_memory L)))
  unfolding copy_pointer registry_spec_into
  registry_spec_deep_copy a = copy_pointer registry_spec_cell registry_spec_into a

  -- `if c := …; c != nil { return c }`, and nil otherwise.
  unfoldable pub object_of : Option ℕ → M L (Option ℕ)
  object_of none = pure none
  object_of (some p) = pure (some p)

  module _ (copies : LibraryCopies L) where
    open copies use {copy_time, copy_object_meta, copy_list_meta}

    unfoldable pub condition_into : Condition (in_memory L) → M L (Condition (in_memory L))
    condition_into a = pure (record a { last_transition_time = copy_time a.last_transition_time })

    unfoldable pub image_status_into : ImageStatus (in_memory L) → M L (ImageStatus (in_memory L))
    unfolding copy_pointer each_into condition_into
    image_status_into a = do
      conditions ← copy_pointer conditions_cell (each_into condition_into) a.conditions
      pure (record a { conditions = conditions })

    unfoldable pub registry_status_into :
        RegistryStatus (in_memory L) → M L (RegistryStatus (in_memory L))
    unfolding copy_pointer each_into condition_into
    registry_status_into a = do
      conditions ← copy_pointer conditions_cell (each_into condition_into) a.conditions
      pure (record a { conditions = conditions })

    unfoldable pub image_into : Image (in_memory L) → M L (Image (in_memory L))
    unfolding image_spec_into image_status_into
    image_into a = do
      object_meta ← copy_object_meta a.object_meta
      spec ← image_spec_into a.spec
      status ← image_status_into a.status
      pure (record a { object_meta = object_meta; spec = spec; status = status })

    unfoldable pub registry_into : Registry (in_memory L) → M L (Registry (in_memory L))
    unfolding registry_spec_into registry_status_into
    registry_into a = do
      object_meta ← copy_object_meta a.object_meta
      spec ← registry_spec_into a.spec
      status ← registry_status_into a.status
      pure (record a { object_meta = object_meta; spec = spec; status = status })

    unfoldable pub image_list_into : ImageList (in_memory L) → M L (ImageList (in_memory L))
    unfolding copy_pointer each_into image_into
    image_list_into a = do
      list_meta ← copy_list_meta a.list_meta
      items ← copy_pointer images_cell (each_into image_into) a.items
      pure (record a { list_meta = list_meta; items = items })

    unfoldable pub registry_list_into :
        RegistryList (in_memory L) → M L (RegistryList (in_memory L))
    unfolding copy_pointer each_into registry_into
    registry_list_into a = do
      list_meta ← copy_list_meta a.list_meta
      items ← copy_pointer registries_cell (each_into registry_into) a.items
      pure (record a { list_meta = list_meta; items = items })

    unfoldable pub condition_deep_copy :
        Addr (Condition (in_memory L)) → M L (Addr (Condition (in_memory L)))
    unfolding copy_pointer condition_into
    condition_deep_copy a = copy_pointer condition_cell condition_into a

    unfoldable pub image_status_deep_copy :
        Addr (ImageStatus (in_memory L)) → M L (Addr (ImageStatus (in_memory L)))
    unfolding copy_pointer image_status_into
    image_status_deep_copy a = copy_pointer image_status_cell image_status_into a

    unfoldable pub image_deep_copy : Addr (Image (in_memory L)) → M L (Addr (Image (in_memory L)))
    unfolding copy_pointer image_into
    image_deep_copy a = copy_pointer image_cell image_into a

    unfoldable pub image_list_deep_copy :
        Addr (ImageList (in_memory L)) → M L (Addr (ImageList (in_memory L)))
    unfolding copy_pointer image_list_into
    image_list_deep_copy a = copy_pointer image_list_cell image_list_into a

    unfoldable pub registry_status_deep_copy :
        Addr (RegistryStatus (in_memory L)) → M L (Addr (RegistryStatus (in_memory L)))
    unfolding copy_pointer registry_status_into
    registry_status_deep_copy a = copy_pointer registry_status_cell registry_status_into a

    unfoldable pub registry_deep_copy :
        Addr (Registry (in_memory L)) → M L (Addr (Registry (in_memory L)))
    unfolding copy_pointer registry_into
    registry_deep_copy a = copy_pointer registry_cell registry_into a

    unfoldable pub registry_list_deep_copy :
        Addr (RegistryList (in_memory L)) → M L (Addr (RegistryList (in_memory L)))
    unfolding copy_pointer registry_list_into
    registry_list_deep_copy a = copy_pointer registry_list_cell registry_list_into a

    unfoldable pub image_deep_copy_object :
        Addr (Image (in_memory L)) → M L (Addr (Image (in_memory L)))
    unfolding image_deep_copy object_of
    image_deep_copy_object a = image_deep_copy a >>= object_of

    unfoldable pub image_list_deep_copy_object :
        Addr (ImageList (in_memory L)) → M L (Addr (ImageList (in_memory L)))
    unfolding image_list_deep_copy object_of
    image_list_deep_copy_object a = image_list_deep_copy a >>= object_of

    unfoldable pub registry_deep_copy_object :
        Addr (Registry (in_memory L)) → M L (Addr (Registry (in_memory L)))
    unfolding registry_deep_copy object_of
    registry_deep_copy_object a = registry_deep_copy a >>= object_of

    unfoldable pub registry_list_deep_copy_object :
        Addr (RegistryList (in_memory L)) → M L (Addr (RegistryList (in_memory L)))
    unfolding registry_list_deep_copy object_of
    registry_list_deep_copy_object a = registry_list_deep_copy a >>= object_of
