-- ===== src/Api.antt =====
-- pkg/apis/v1alpha1: the objects of the API as they lie in memory, and what they stand for.
pub mod Memory
pub mod DeepCopy
mod Tests
use jitdi.Base.{Bool, List, Bytes}
use jitdi.Config.{Platform, File, Ollama, BaseAuth}

-- A pointer or a slice, and the types of the library that the objects hold: `metav1.TypeMeta`, `Time`,
-- `ObjectMeta` and `ListMeta`. In memory a pointer is an address; in what an object stands for it is
-- the thing pointed at. Either may be nil.
pub record Types : Type 1 where
  pub Ptr : Type 0 → Type 0
  pub TypeMeta : Type 0
  pub Time : Type 0
  pub ObjectMeta : Type 0
  pub ListMeta : Type 0

pub record Authentication (T : Types) : Type 0 where
  pub base_auth : T.Ptr BaseAuth

pub record Condition (T : Types) : Type 0 where
  pub typ : Bytes
  pub status : Bytes
  pub last_transition_time : T.Time
  pub reason : Bytes
  pub message : Bytes

pub record Mutate (T : Types) : Type 0 where
  pub file : T.Ptr File
  pub ollama : T.Ptr Ollama

pub record ImageSpec (T : Types) : Type 0 where
  pub match : Bytes
  pub base_image : Bytes
  pub mutates : T.Ptr (List (Mutate T))
  pub platforms : T.Ptr (List Platform)

pub record ImageStatus (T : Types) : Type 0 where
  pub conditions : T.Ptr (List (Condition T))

pub record Image (T : Types) : Type 0 where
  pub type_meta : T.TypeMeta
  pub object_meta : T.ObjectMeta
  pub spec : ImageSpec T
  pub status : ImageStatus T

pub record ImageList (T : Types) : Type 0 where
  pub type_meta : T.TypeMeta
  pub list_meta : T.ListMeta
  pub items : T.Ptr (List (Image T))

pub record RegistrySpec (T : Types) : Type 0 where
  pub endpoint : Bytes
  pub insecure : Bool
  pub authentication : T.Ptr (Authentication T)

pub record RegistryStatus (T : Types) : Type 0 where
  pub conditions : T.Ptr (List (Condition T))

pub record Registry (T : Types) : Type 0 where
  pub type_meta : T.TypeMeta
  pub object_meta : T.ObjectMeta
  pub spec : RegistrySpec T
  pub status : RegistryStatus T

pub record RegistryList (T : Types) : Type 0 where
  pub type_meta : T.TypeMeta
  pub list_meta : T.ListMeta
  pub items : T.Ptr (List (Registry T))
