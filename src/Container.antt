-- ===== src/Container.antt =====
-- What the program sees of github.com/google/go-containerregistry: a value of one of its interfaces is
-- given by the results of its methods, which are not modelled further.
use jitdi.Base.{ℕ, Bool, Option, List, Bytes, codes, ◌++◌}
use jitdi.Exec.{Exec, Result}
use jitdi.Config.{Platform}

-- `v1.Hash`
pub record Hash : Type 0 where
  pub algorithm : Bytes
  pub hex : Bytes

-- `Hash.String`
abbrev pub hash_string : Hash → Bytes
hash_string h = h.algorithm ++ (codes ":" ++ h.hex)

-- `v1.Layer`. Its digest and its size may be known only when its contents have been read, which the
-- flag says; for a layer that streams, both fail before.
pub record Layer : Type 0 where
  pub digest : Bool → Result Hash
  pub size : Bool → Result ℕ
  pub compressed : Result Bytes

-- `v1.Image`; its manifest and its configuration are computed once its layers have been read.
pub record Image : Type 0 where
  pub media_type : Result Bytes
  pub layers : Result (List Layer)
  pub raw_config_file : Result Bytes
  pub config_name : Result Hash
  pub manifest_media_type : Result Bytes
  pub raw_manifest : Result Bytes
  pub digest : Result Hash
  pub size : Result ℕ

-- `v1.Descriptor`
pub record Descriptor : Type 0 where
  pub digest : Hash
  pub size : ℕ
  pub media_type : Bytes
  pub platform : Option Platform

-- `v1.ImageIndex`; an image is asked for by its digest.
pub record ImageIndex : Type 0 where
  pub manifests : Result (List Descriptor)
  pub raw_manifest : Result Bytes
  pub image : Hash → Result Image

-- `name.Reference`: the registry, the repository, and the tag or digest.
pub record Reference : Type 0 where
  pub registry : Bytes
  pub repository : Bytes
  pub identifier : Bytes

-- `name.Repository`
pub record Repository : Type 0 where
  pub registry : Bytes
  pub repository : Bytes

-- `Reference.Context`
abbrev pub context : Reference → Repository
context r = record { registry = r.registry; repository = r.repository }

-- `Repository.Digest`
abbrev pub digest_of : Repository → Bytes → Reference
digest_of r digest = record {
  registry = r.registry;
  repository = r.repository;
  identifier = digest;
}

-- `remote.Descriptor`: what a registry answers about a reference.
pub record Described : Type 0 where
  pub media_type : Bytes
  pub size : ℕ
  pub platform : Option Platform
  pub is_index : Bool
  pub manifest : Result Bytes
  pub image_index : Result ImageIndex
  pub image : Result Image

-- A `v1.Layer` of a registry.
pub record RemoteLayer : Type 0 where
  pub media_type : Result Bytes
  pub size : Result ℕ
  pub compressed : Result Bytes
  pub uncompressed : Result Bytes

-- `remote.Pusher` and `remote.Puller`, which talk to a registry of the state `S`.
pub record RemotePusher (S : Type 0) : Type 0 where
  pub upload : Repository → Layer → Exec S (Unit {0})
  pub push_image : Reference → Image → Exec S (Unit {0})
  pub push_index : Reference → ImageIndex → Exec S (Unit {0})

pub record RemotePuller (S : Type 0) : Type 0 where
  pub layer : Reference → Exec S RemoteLayer
  pub get : Reference → Exec S Described
