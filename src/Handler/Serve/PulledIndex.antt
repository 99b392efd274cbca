-- ===== src/Handler/Serve/PulledIndex.antt =====
-- pkg/handler/handler.go and pkg/handler/serve.go, down to the cache directory: a client that pulls an
-- image of several platforms which is not in the cache yet.
use jitdi.Base.{All, List, [], ◌∷◌, Bytes}
use jitdi.Container.{Descriptor, Reference}
use jitdi.Pattern.Rule.{Action, get_platforms}
use jitdi.Storage.Paths.{local_manifest_path}
use jitdi.Handler.Select.Sorting.{Sorter}
use jitdi.Handler.Build.{World, Services, Cache}
use jitdi.Handler.Build.Complete.{New}
use jitdi.Handler.Serve.{Decoders}
use jitdi.Handler.Serve.Reads.{ServesLayer, IsServed}

module _ {R : Type 0} (decoders : Decoders) (services : Services R) (cache : Cache)
    (sorter : Sorter) (ref : Reference) (action : Action) where
  abbrev pub Image : Type 0
  Image = New services cache ref (get_platforms action)

  -- The layers of a new image, its configuration and its manifest are served under their digests.
  abbrev ServesImage : World R → Image → Type 0
  ServesImage w n =
      All (ServesLayer decoders services cache sorter w) n.sound.layers
      × IsServed decoders services cache sorter w n.sound.config_hash.hex
      × IsServed decoders services cache sorter w (services.sum_sha256 n.sound.manifest)

  -- What the manifest of a descriptor lists is served: the manifest itself under the descriptor's
  -- digest, the layers and the configuration of the image that it is of.
  abbrev pub ServeListed : World R → List Descriptor → List Image → Type 0
  ServeListed w [] [] = Unit
  ServeListed w [] (n ∷ news) = ⊥
  ServeListed w (d ∷ ds) [] = ⊥
  ServeListed w (d ∷ ds) (n ∷ news) =
      IsServed decoders services cache sorter w d.digest.hex
      × All (ServesLayer decoders services cache sorter w) n.sound.layers
      × IsServed decoders services cache sorter w n.sound.config_hash.hex
      × ServeListed w ds news

  abbrev served_path : Bytes → Bytes → Bytes
  served_path image tag = local_manifest_path cache.manifest_path image tag
