-- ===== src/Handler/Build/Platforms.antt =====
-- pkg/handler/handler.go: the platforms of the index that `buildAndSave` makes.
use jitdi.Base.{◌≡◌, true, Option, none, some, List, [], ◌∷◌, ◌++◌, map, if◌then◌else◌}
use jitdi.Exec.{ok}
use jitdi.Config.{Platform}
use jitdi.Container.{Image, Descriptor, ImageIndex, Reference}
use jitdi.Pattern.Rule.{Action}
use jitdi.Storage.Pusher.{Pusher}
use jitdi.Builder.Index.{IndexOps, Index}
use jitdi.Handler.Build.{World, Services, Cache, is_wanted}

-- What `mutate.RemoveManifests` promises of a test that every descriptor passes, and what
-- `mutate.AppendManifests` does.
abbrev pub EditsManifests : IndexOps → Type 0
EditsManifests ops =
    ((ix : ImageIndex) (ds : List Descriptor)
      → ix.manifests ≡ ok ds
      → (ops.remove_manifests ix (λ desc. true)).manifests ≡ ok [])
    × ((ix : ImageIndex) (image : Image) (desc : Descriptor) (ds : List Descriptor)
        → ix.manifests ≡ ok ds
        → (ops.append_manifest ix image desc).manifests ≡ ok (ds ++ desc ∷ []))

-- The platforms of the descriptors that have one and are wanted, in their order.
unfoldable pub wanted : Option (List Platform) → List Descriptor → List (Option Platform)
unfolding is_wanted
wanted ps [] = []
wanted ps (d ∷ ds) =
    let rest = wanted ps ds in
    elim d.platform [ none ↦ rest | some p ↦ if is_wanted ps p then some p ∷ rest else rest ]

abbrev pub platform_of : Descriptor → Option Platform
platform_of d = d.platform

-- The index behind those platforms.
abbrev Has : List Descriptor → List (Option Platform) → Index → Type 0
Has old ps index =
    (new : List Descriptor) × (index.image_index.manifests ≡ ok (old ++ new))
    × (map platform_of new ≡ ps)

module _ {R : Type 0} (services : Services R) (cache : Cache)
    (edits : EditsManifests services.index_ops) (pusher : Pusher (World R)) (ref : Reference) where
  abbrev Built : List Descriptor → List (Option Platform) → Action × Index → Type 0
  Built old ps r = Has old ps r.1
