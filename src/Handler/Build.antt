-- ===== src/Handler/Build.antt =====
-- pkg/handler/handler.go: `getPusher`, `getPuller` and what `buildAndSave` does under its lock.
pub mod Platforms
pub mod Clients
pub mod Complete
pub mod Indexed
pub mod Listed
use jitdi.Base.{
  Bool, true, false, ◌&&◌, Option, none, some, List, [], ◌∷◌, ◌++◌, Bytes, codes, bytes_eq,
  is_empty, path_join, if◌then◌else◌,
}
use jitdi.Exec.{Exec, Result, ok, err, nothing, ◌>>=◌, ◌>>◌, pure, lift}
use jitdi.Config.{Platform, BaseAuth}
use jitdi.Container.{
  Layer, Image, Descriptor, ImageIndex, Reference, Described, RemotePusher, RemotePuller, context,
}
use jitdi.Disk.{Disk, M}
use jitdi.Pattern.Rule.{Action, get_match_image, get_base_image, get_platforms, get_mutates}
use jitdi.Storage.Pusher.{Pusher, new_local_pusher, new_pusher}
use jitdi.Builder.Image.{LayerOps}
use jitdi.Builder.Index.{IndexOps, Index, new_image_index, clear_image, append_image}
use jitdi.Handler.Mutates.{Sources, mutate_image}
use jitdi.Handler.Rules.{Handler, get_authn}

-- The handler, the disk and the registries.
pub record World (R : Type 0) : Type 0 where
  pub handler : Handler
  pub disk : Disk
  pub remote : R

-- The library's `remote.NewPusher`, `remote.NewPuller` and `name.ParseReference`, `SumSha256`, the
-- builders of layers and indexes, and the sources of the mutations.
pub record Services (R : Type 0) : Type 0 where
  pub remote_pusher : Option BaseAuth → Result (RemotePusher (World R))
  pub remote_puller : Option BaseAuth → Result (RemotePuller (World R))
  pub parse_reference : Bytes → Result Reference
  pub sum_sha256 : Bytes → Bytes
  pub layer_ops : LayerOps
  pub index_ops : IndexOps
  pub sources : Sources (World R)

-- The directories of the cache.
pub record Cache : Type 0 where
  pub blob_path : Bytes
  pub manifest_path : Bytes
  pub link_path : Bytes

-- `WithCache`
unfoldable pub with_cache : Bytes → Cache
unfolding path_join
with_cache cache = record {
  blob_path = path_join (cache ∷ codes "blobs" ∷ []);
  manifest_path = path_join (cache ∷ codes "manifests" ∷ []);
  link_path = path_join (cache ∷ codes "links" ∷ []);
}

-- `slices.IndexFunc(ps, …) ≥ 0`
unfoldable pub has_platform : Platform → List Platform → Bool
unfolding bytes_eq
has_platform platform [] = false
has_platform platform (p ∷ ps) =
    let rest = has_platform platform ps in
    if bytes_eq platform.os p.os && bytes_eq platform.architecture p.architecture
    then true
    else rest

unfoldable pub is_wanted : Option (List Platform) → Platform → Bool
unfolding has_platform
is_wanted none platform = true
is_wanted (some ps) platform = has_platform platform ps

module _ {R : Type 0} where
  on_disk_then : {A : Type 0} → World R → Result A × Disk → Result A × World R
  on_disk_then w (r, d) = (r, record w { disk = d })

  unfoldable pub on_disk : {A : Type 0} → M A → Exec (World R) A
  unfolding on_disk_then
  on_disk m w = on_disk_then w (m w.disk)

  on_handler_then : {A : Type 0} → World R → Handler × A → Result A × World R
  on_handler_then w (h, a) = (ok a, record w { handler = h })

  unfoldable pub on_handler : {A : Type 0} → (Handler → Handler × A) → Exec (World R) A
  unfolding on_handler_then
  on_handler f w = on_handler_then w (f w.handler)

  unfoldable pub local_pusher : (Bytes → Bytes) → Cache → Pusher (World R)
  unfolding on_disk new_local_pusher
  local_pusher sum_sha256 cache =
      let p = new_local_pusher sum_sha256 cache.blob_path cache.manifest_path in
      record {
        push_image = λ ref image. on_disk (p.push_image ref image);
        push_image_with_index = λ repo image. on_disk (p.push_image_with_index repo image);
        push_image_index = λ ref index. on_disk (p.push_image_index ref index);
      }

  module _ (services : Services R) (cache : Cache) where
    open services use {
      remote_pusher, remote_puller, parse_reference, sum_sha256, layer_ops, index_ops, sources,
    }

    unfoldable pub get_puller : Reference → Exec (World R) (RemotePuller (World R))
    unfolding on_handler get_authn
    get_puller ref = do auth ← on_handler (λ h. get_authn h ref.registry); lift (remote_puller auth)

    unfoldable pub get_pusher : Reference → Exec (World R) (Pusher (World R))
    unfolding on_handler get_authn new_pusher
    get_pusher ref = do
      auth ← on_handler (λ h. get_authn h ref.registry)
      r ← lift (remote_pusher auth)
      pure (new_pusher r)

    -- The pusher and the reference that the image is pushed as.
    unfoldable pub destination_of : Bytes → Action → Exec (World R) (Pusher (World R) × Reference)
    unfolding get_pusher local_pusher
    destination_of storage_registry action =
        if is_empty storage_registry
        then (do
          ref ← lift (parse_reference (get_match_image action))
          pure (local_pusher sum_sha256 cache, ref))
        else (do
          ref ← lift (parse_reference (storage_registry ++ (codes "/" ++ get_match_image action)))
          pusher ← get_pusher ref
          pure (pusher, ref))

    module _ (pusher : Pusher (World R)) (ref : Reference) where
      -- The image of one platform: mutated, pushed and appended to the index.
      unfoldable pub build_platform :
          Descriptor → Platform → Action → Index → Exec (World R) (Action × Index)
      unfolding get_mutates mutate_image append_image
      build_platform manifest platform action index = do
        image ← lift (index.image_index.image manifest.digest)
        let (action', mutates) = get_mutates action (some platform)
        new ← mutate_image layer_ops sources image mutates cache.link_path
        pusher.push_image_with_index (context ref) new
        index' ← lift (append_image index_ops new (some platform) index)
        pure (action', index')

      -- `for _, manifest := range manifests`
      unfoldable pub build_manifests :
          Option (List Platform)
          → List Descriptor
          → Action
          → Index
          → Exec (World R) (Action × Index)
      unfolding is_wanted build_platform
      build_manifests ps [] action index = pure (action, index)
      build_manifests ps (manifest ∷ manifests) action index = elim manifest.platform [
        | none ↦ build_manifests ps manifests action index
        | some platform ↦
            if is_wanted ps platform
            then (build_platform manifest platform action index >>= λ built.
                build_manifests ps manifests built.0 built.1)
            else build_manifests ps manifests action index
      ]

      unfoldable pub build_index : Described → Action → Exec (World R) (Unit {0})
      unfolding new_image_index clear_image build_manifests get_platforms
      build_index desc action = do
        image_index ← lift desc.image_index
        manifests ← lift image_index.manifests
        built ←
            build_manifests (get_platforms action) manifests action
              (clear_image index_ops (new_image_index image_index))
        pusher.push_image_index ref built.1.image_index

      unfoldable pub build_image : Described → Action → Exec (World R) (Unit {0})
      unfolding get_mutates mutate_image
      build_image desc action = do
        image ← lift desc.image
        new ←
            mutate_image layer_ops sources image (get_mutates action desc.platform).1
              cache.link_path
        pusher.push_image ref new

    -- `buildAndSave`, behind its lock.
    unfoldable pub build : Action → Exec (World R) (Unit {0})
    unfolding on_handler get_base_image get_puller destination_of build_index build_image
    build action = do
      source ← lift (parse_reference (get_base_image action))
      puller ← get_puller source
      desc ← puller.get source
      storage_registry ← on_handler (λ h. (h, h.storage_registry))
      dest ← destination_of storage_registry action
      (if desc.is_index
          then build_index dest.0 dest.1 desc action
          else build_image dest.0 dest.1 desc action)
