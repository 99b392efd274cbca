-- ===== src/Api/Memory.antt =====
-- Memory for the objects of pkg/apis/v1alpha1: what an address holds, and the commands on it.
use jitdi.Base.{ℕ, suc, ◌≡◌, refl, Option, none, some, List, if◌then◌else◌, ◌==◌}
use jitdi.Exec.{Exec, fault, pure, raise, nothing}
use jitdi.Config.{Platform, File, Ollama, BaseAuth}
use jitdi.Api.{
  Types, Authentication, Condition, Mutate, ImageSpec, ImageStatus, Image, ImageList, RegistrySpec,
  RegistryStatus, Registry, RegistryList,
}

-- The address of a thing; `none` is nil.
abbrev pub Addr : Type 0 → Type 0
Addr A = Option ℕ

-- The library's types, `Other` being what they point at.
pub record Library : Type 1 where
  pub TypeMeta : Type 0
  pub Time : Type 0
  pub ObjectMeta : Type 0
  pub ListMeta : Type 0
  pub Other : Type 0

abbrev pub in_memory : Library → Types
in_memory L = record {
  Ptr = Addr;
  TypeMeta = L.TypeMeta;
  Time = L.Time;
  ObjectMeta = L.ObjectMeta;
  ListMeta = L.ListMeta;
}

-- A struct behind a pointer or the array of a slice; `other` is what the library's own types point at.
pub data Cell (T : Types) (Other : Type 0) : Type 0 where
  base_auth : BaseAuth → Cell T Other
  authentication : Authentication T → Cell T Other
  condition : Condition T → Cell T Other
  file : File → Cell T Other
  image : Image T → Cell T Other
  image_list : ImageList T → Cell T Other
  image_spec : ImageSpec T → Cell T Other
  image_status : ImageStatus T → Cell T Other
  mutate : Mutate T → Cell T Other
  ollama : Ollama → Cell T Other
  platform : Platform → Cell T Other
  registry : Registry T → Cell T Other
  registry_list : RegistryList T → Cell T Other
  registry_spec : RegistrySpec T → Cell T Other
  registry_status : RegistryStatus T → Cell T Other
  mutates : List (Mutate T) → Cell T Other
  platforms : List Platform → Cell T Other
  conditions : List (Condition T) → Cell T Other
  images : List (Image T) → Cell T Other
  registries : List (Registry T) → Cell T Other
  other : Other → Cell T Other

-- The addresses from `next` on are not in use.
pub record Heap (T : Types) (Other : Type 0) : Type 0 where
  pub next : ℕ
  pub cells : ℕ → Cell T Other

-- The cells of one type.
pub record Kind (T : Types) (Other A : Type 0) : Type 0 where
  pub put : A → Cell T Other
  pub get : Cell T Other → Option A
  pub get-put : (a : A) → get (put a) ≡ some a

module _ {T : Types} {Other : Type 0} where
  abbrev get_base_auth : Cell T Other → Option (BaseAuth)
  get_base_auth (base_auth a) = some a
  get_base_auth _ = none

  abbrev pub base_auth_cell : Kind T Other (BaseAuth)
  base_auth_cell = record { put = base_auth; get = get_base_auth; get-put = λ a. refl }

  abbrev get_authentication : Cell T Other → Option (Authentication T)
  get_authentication (authentication a) = some a
  get_authentication _ = none

  abbrev pub authentication_cell : Kind T Other (Authentication T)
  authentication_cell = record {
    put = authentication;
    get = get_authentication;
    get-put = λ a. refl;
  }

  abbrev get_condition : Cell T Other → Option (Condition T)
  get_condition (condition a) = some a
  get_condition _ = none

  abbrev pub condition_cell : Kind T Other (Condition T)
  condition_cell = record { put = condition; get = get_condition; get-put = λ a. refl }

  abbrev get_file : Cell T Other → Option (File)
  get_file (file a) = some a
  get_file _ = none

  abbrev pub file_cell : Kind T Other (File)
  file_cell = record { put = file; get = get_file; get-put = λ a. refl }

  abbrev get_image : Cell T Other → Option (Image T)
  get_image (image a) = some a
  get_image _ = none

  abbrev pub image_cell : Kind T Other (Image T)
  image_cell = record { put = image; get = get_image; get-put = λ a. refl }

  abbrev get_image_list : Cell T Other → Option (ImageList T)
  get_image_list (image_list a) = some a
  get_image_list _ = none

  abbrev pub image_list_cell : Kind T Other (ImageList T)
  image_list_cell = record { put = image_list; get = get_image_list; get-put = λ a. refl }

  abbrev get_image_spec : Cell T Other → Option (ImageSpec T)
  get_image_spec (image_spec a) = some a
  get_image_spec _ = none

  abbrev pub image_spec_cell : Kind T Other (ImageSpec T)
  image_spec_cell = record { put = image_spec; get = get_image_spec; get-put = λ a. refl }

  abbrev get_image_status : Cell T Other → Option (ImageStatus T)
  get_image_status (image_status a) = some a
  get_image_status _ = none

  abbrev pub image_status_cell : Kind T Other (ImageStatus T)
  image_status_cell = record { put = image_status; get = get_image_status; get-put = λ a. refl }

  abbrev get_mutate : Cell T Other → Option (Mutate T)
  get_mutate (mutate a) = some a
  get_mutate _ = none

  abbrev pub mutate_cell : Kind T Other (Mutate T)
  mutate_cell = record { put = mutate; get = get_mutate; get-put = λ a. refl }

  abbrev get_ollama : Cell T Other → Option (Ollama)
  get_ollama (ollama a) = some a
  get_ollama _ = none

  abbrev pub ollama_cell : Kind T Other (Ollama)
  ollama_cell = record { put = ollama; get = get_ollama; get-put = λ a. refl }

  abbrev get_platform : Cell T Other → Option (Platform)
  get_platform (platform a) = some a
  get_platform _ = none

  abbrev pub platform_cell : Kind T Other (Platform)
  platform_cell = record { put = platform; get = get_platform; get-put = λ a. refl }

  abbrev get_registry : Cell T Other → Option (Registry T)
  get_registry (registry a) = some a
  get_registry _ = none

  abbrev pub registry_cell : Kind T Other (Registry T)
  registry_cell = record { put = registry; get = get_registry; get-put = λ a. refl }

  abbrev get_registry_list : Cell T Other → Option (RegistryList T)
  get_registry_list (registry_list a) = some a
  get_registry_list _ = none

  abbrev pub registry_list_cell : Kind T Other (RegistryList T)
  registry_list_cell = record { put = registry_list; get = get_registry_list; get-put = λ a. refl }

  abbrev get_registry_spec : Cell T Other → Option (RegistrySpec T)
  get_registry_spec (registry_spec a) = some a
  get_registry_spec _ = none

  abbrev pub registry_spec_cell : Kind T Other (RegistrySpec T)
  registry_spec_cell = record { put = registry_spec; get = get_registry_spec; get-put = λ a. refl }

  abbrev get_registry_status : Cell T Other → Option (RegistryStatus T)
  get_registry_status (registry_status a) = some a
  get_registry_status _ = none

  abbrev pub registry_status_cell : Kind T Other (RegistryStatus T)
  registry_status_cell = record {
    put = registry_status;
    get = get_registry_status;
    get-put = λ a. refl;
  }

  abbrev get_mutates : Cell T Other → Option (List (Mutate T))
  get_mutates (mutates a) = some a
  get_mutates _ = none

  abbrev pub mutates_cell : Kind T Other (List (Mutate T))
  mutates_cell = record { put = mutates; get = get_mutates; get-put = λ a. refl }

  abbrev get_platforms : Cell T Other → Option (List Platform)
  get_platforms (platforms a) = some a
  get_platforms _ = none

  abbrev pub platforms_cell : Kind T Other (List Platform)
  platforms_cell = record { put = platforms; get = get_platforms; get-put = λ a. refl }

  abbrev get_conditions : Cell T Other → Option (List (Condition T))
  get_conditions (conditions a) = some a
  get_conditions _ = none

  abbrev pub conditions_cell : Kind T Other (List (Condition T))
  conditions_cell = record { put = conditions; get = get_conditions; get-put = λ a. refl }

  abbrev get_images : Cell T Other → Option (List (Image T))
  get_images (images a) = some a
  get_images _ = none

  abbrev pub images_cell : Kind T Other (List (Image T))
  images_cell = record { put = images; get = get_images; get-put = λ a. refl }

  abbrev get_registries : Cell T Other → Option (List (Registry T))
  get_registries (registries a) = some a
  get_registries _ = none

  abbrev pub registries_cell : Kind T Other (List (Registry T))
  registries_cell = record { put = registries; get = get_registries; get-put = λ a. refl }

  -- `new(T)` or `make`: an address, to be written to.
  unfoldable pub new : Exec (Heap T Other) ℕ
  new h = pure h.next (record h { next = suc h.next })

  module _ {A : Type 0} (kind : Kind T Other A) where
    loaded : Option A → Exec (Heap T Other) A
    loaded none = raise fault
    loaded (some a) = pure a

    -- What a pointer points at.
    unfoldable pub read_at : ℕ → Exec (Heap T Other) A
    unfolding loaded
    read_at p h = loaded (kind.get (h.cells p)) h

    unfoldable pub write_at : ℕ → A → Exec (Heap T Other) (Unit {0})
    write_at p a h =
        pure nothing (record h { cells = λ q. if p == q then kind.put a else h.cells q })
