-- ===== src/Api/DeepCopy/Meaning.antt =====
-- pkg/apis/v1alpha1: what the objects in memory stand for.
use jitdi.Base.{◌≡◌, Option, List}
use jitdi.Api.{
  Types, Authentication, Condition, Mutate, ImageSpec, ImageStatus, Image, ImageList, RegistrySpec,
  RegistryStatus, Registry, RegistryList,
}
use jitdi.Api.Memory.{
  Library, in_memory, base_auth_cell, authentication_cell, file_cell, ollama_cell, mutates_cell,
  platforms_cell, conditions_cell, images_cell, registries_cell,
}
use jitdi.Api.DeepCopy.{LibraryCopies}
use jitdi.Api.DeepCopy.Copies.{StandsFor, IsCopy, Plain}
use jitdi.Api.DeepCopy.Parts.{Pointed, Elements}

-- What the library's types stand for.
pub record Meaning (L : Library) : Type 1 where
  pub ObjectMeta : Type 0
  pub ListMeta : Type 0
  pub object_meta : StandsFor L L.ObjectMeta ObjectMeta
  pub list_meta : StandsFor L L.ListMeta ListMeta

-- The objects without addresses: a pointer is what it points at.
abbrev pub in_full : (L : Library) → Meaning L → Types
in_full L m = record {
  Ptr = Option;
  TypeMeta = L.TypeMeta;
  Time = L.Time;
  ObjectMeta = m.ObjectMeta;
  ListMeta = m.ListMeta;
}

-- What the library says of its own `DeepCopyInto`.
pub record CopiesDeeply (L : Library) (m : Meaning L) (copies : LibraryCopies L) : Type 1 where
  pub time : (t : L.Time) → copies.copy_time t ≡ t
  pub object_meta : IsCopy L m.object_meta copies.copy_object_meta
  pub list_meta : IsCopy L m.list_meta copies.copy_list_meta

module _ (L : Library) (m : Meaning L) where
  abbrev pub F : Types
  F = in_full L m

  abbrev pub H : Types
  H = in_memory L

  abbrev pub AuthenticationFor : StandsFor L (Authentication H) (Authentication F)
  AuthenticationFor P h a t = Pointed L (Plain L) base_auth_cell P h a.base_auth t.base_auth

  abbrev pub MutateFor : StandsFor L (Mutate H) (Mutate F)
  MutateFor P h a t =
      Pointed L (Plain L) file_cell P h a.file t.file
      × Pointed L (Plain L) ollama_cell P h a.ollama t.ollama

  abbrev pub ConditionFor : StandsFor L (Condition H) (Condition F)
  ConditionFor P h a t =
      (a.typ ≡ t.typ)
      × (a.status ≡ t.status)
      × (a.last_transition_time ≡ t.last_transition_time)
      × (a.reason ≡ t.reason)
      × (a.message ≡ t.message)

  abbrev pub ConditionsFor : StandsFor L (H.Ptr (List (Condition H))) (F.Ptr (List (Condition F)))
  ConditionsFor = Pointed L (Elements L ConditionFor) conditions_cell

  abbrev pub ImageSpecFor : StandsFor L (ImageSpec H) (ImageSpec F)
  ImageSpecFor P h a t =
      (a.match ≡ t.match)
      × (a.base_image ≡ t.base_image)
      × Pointed L (Elements L MutateFor) mutates_cell P h a.mutates t.mutates
      × Pointed L (Plain L) platforms_cell P h a.platforms t.platforms

  abbrev pub ImageStatusFor : StandsFor L (ImageStatus H) (ImageStatus F)
  ImageStatusFor P h a t = ConditionsFor P h a.conditions t.conditions

  abbrev pub RegistryStatusFor : StandsFor L (RegistryStatus H) (RegistryStatus F)
  RegistryStatusFor P h a t = ConditionsFor P h a.conditions t.conditions

  abbrev pub ImageFor : StandsFor L (Image H) (Image F)
  ImageFor P h a t =
      (a.type_meta ≡ t.type_meta)
      × m.object_meta P h a.object_meta t.object_meta
      × ImageSpecFor P h a.spec t.spec
      × ImageStatusFor P h a.status t.status

  abbrev pub ImageListFor : StandsFor L (ImageList H) (ImageList F)
  ImageListFor P h a t =
      (a.type_meta ≡ t.type_meta)
      × m.list_meta P h a.list_meta t.list_meta
      × Pointed L (Elements L ImageFor) images_cell P h a.items t.items

  abbrev pub RegistrySpecFor : StandsFor L (RegistrySpec H) (RegistrySpec F)
  RegistrySpecFor P h a t =
      (a.endpoint ≡ t.endpoint)
      × (a.insecure ≡ t.insecure)
      × Pointed L AuthenticationFor authentication_cell P h a.authentication t.authentication

  abbrev pub RegistryFor : StandsFor L (Registry H) (Registry F)
  RegistryFor P h a t =
      (a.type_meta ≡ t.type_meta)
      × m.object_meta P h a.object_meta t.object_meta
      × RegistrySpecFor P h a.spec t.spec
      × RegistryStatusFor P h a.status t.status

  abbrev pub RegistryListFor : StandsFor L (RegistryList H) (RegistryList F)
  RegistryListFor P h a t =
      (a.type_meta ≡ t.type_meta)
      × m.list_meta P h a.list_meta t.list_meta
      × Pointed L (Elements L RegistryFor) registries_cell P h a.items t.items
