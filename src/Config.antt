-- ===== src/Config.antt =====
-- pkg/apis/v1alpha1: the configuration of images and registries, as far as the program reads it.
use jitdi.Base.{Bool, Option, List, Bytes}

pub record Platform : Type 0 where
  pub architecture : Bytes
  pub os : Bytes
  pub variant : Bytes

pub record File : Type 0 where
  pub source : Bytes
  pub destination : Bytes
  pub mode : Bytes

pub record Ollama : Type 0 where
  pub model : Bytes
  pub model_name : Bytes
  pub work_dir : Bytes

-- A pointer that may be nil is an `Option`.
pub record Mutate : Type 0 where
  pub file : Option File
  pub ollama : Option Ollama

pub record ImageSpec : Type 0 where
  pub match : Bytes
  pub base_image : Bytes
  pub mutates : List Mutate
  pub platforms : List Platform

pub record BaseAuth : Type 0 where
  pub username : Bytes
  pub password : Bytes

pub record Authentication : Type 0 where
  pub base_auth : Option BaseAuth

pub record RegistrySpec : Type 0 where
  pub endpoint : Bytes
  pub insecure : Bool
  pub authentication : Option Authentication

pub record Registry : Type 0 where
  pub name : Bytes
  pub spec : RegistrySpec

pub record Image : Type 0 where
  pub name : Bytes
  pub spec : ImageSpec
