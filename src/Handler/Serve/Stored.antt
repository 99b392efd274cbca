-- ===== src/Handler/Serve/Stored.antt =====
-- pkg/handler/handler.go with pkg/storage/pusher.go: a build whose image goes to the storage registry.
use jitdi.Base.{ℕ, ◌≡◌, refl, ap, ◌∙◌, length, false, List, ◌∷◌, ◌++◌, Bytes, codes, if◌then◌else◌}
use jitdi.Exec.{Exec, ok, nothing, pure, lift, ◌>>=◌}
use jitdi.Exec.Outcome.{bind_ok}
use jitdi.Container.{Layer, Image, Reference, Described, RemotePuller, RemotePusher, context}
use jitdi.Pattern.Rule.{Action, get_match_image, get_base_image, get_mutates}
use jitdi.Storage.Pusher.{Pusher, each, new_pusher, remote_push_image}
use jitdi.Handler.Mutates.{mutate_image}
use jitdi.Handler.Build.{
  World, Services, Cache, on_handler, get_puller, get_pusher, destination_of, build_index,
  build_image, build,
}

module _ {R : Type 0} (services : Services R) (cache : Cache) (c : ℕ) (rest : Bytes) where
  open services use {parse_reference, layer_ops, sources}

  -- The storage registry's address, which is not empty.
  abbrev pub registry : Bytes
  registry = c ∷ rest

  -- The name of an action's image in the storage registry.
  abbrev pub stored_name : Action → Bytes
  stored_name action = registry ++ (codes "/" ++ get_match_image action)

  -- A build whose image is pushed to the storage registry: its base is fetched from the registry of the
  -- base, mutated, and its layers are uploaded before the image is.
  pub record Registered (action : Action) (ref : Reference) (w : World R) (new : Image)
      (w' : World R) : Type 0 where
    pub source : Reference
    pub puller : RemotePuller (World R)
    pub desc : Described
    pub base : Image
    pub pusher : RemotePusher (World R)
    pub layers : List Layer
    pub w1 : World R
    pub w2 : World R
    pub w3 : World R
    pub w4 : World R
    pub w5 : World R
    pub parsed : parse_reference (get_base_image action) ≡ ok source
    pub connected : get_puller services cache source w ≡ (ok puller, w1)
    pub got : puller.get source w1 ≡ (ok desc, w2)
    pub stored : w2.handler.storage_registry ≡ registry
    pub connected_storage : get_pusher services cache ref w2 ≡ (ok (new_pusher pusher), w3)
    pub single : desc.is_index ≡ false
    pub base_of : desc.image ≡ ok base
    pub mutated :
        mutate_image layer_ops sources base (get_mutates action desc.platform).1 cache.link_path w3
        ≡ (ok new, w4)
    pub layers_of : new.layers ≡ ok layers
    pub uploaded : each (pusher.upload (context ref)) layers w4 ≡ (ok nothing, w5)
    pub pushed : pusher.push_image ref new w5 ≡ (ok nothing, w')

  -- A registry tells of an image what was pushed: behind a push that has no error, asking for the
  -- reference gives the image's manifest, under its media type and with its length.
  abbrev pub Tells : RemotePuller (World R) → RemotePusher (World R) → Reference → Type 0
  Tells puller pusher ref =
      (image : Image) (w w' : World R) (manifest media_type : Bytes)
      → pusher.push_image ref image w ≡ (ok nothing, w')
      → image.raw_manifest ≡ ok manifest
      → image.media_type ≡ ok media_type
      → (desc : Described) × (w'' : World R) × (puller.get ref w' ≡ (ok desc, w''))
        × (desc.manifest ≡ ok manifest)
        × (desc.media_type ≡ media_type)
        × (desc.size ≡ length manifest)

  destination_stored :
      (action : Action) (w w' : World R) (ref : Reference) (pusher : Pusher (World R))
      → w.handler.storage_registry ≡ registry
      → parse_reference (stored_name action) ≡ ok ref
      → get_pusher services cache ref w ≡ (ok pusher, w')
      → destination_of services cache w.handler.storage_registry action w ≡ (ok (pusher, ref), w')
  unfolding destination_of
  destination_stored action w w' ref pusher stored to connected =
      ap (λ storage_registry. destination_of services cache storage_registry action w) stored
      ∙ bind_ok (lift (parse_reference (stored_name action)))
          (λ ref. get_pusher services cache ref >>= λ pusher. pure (pusher, ref))
          (ap (λ r. (r, w)) to)
      ∙ bind_ok (get_pusher services cache ref) (λ pusher. pure (pusher, ref)) {s = w} connected

  build_image_stored :
      (action : Action) (ref : Reference) (w : World R) (new : Image) (w' : World R)
      (b : Registered action ref w new w')
      → build_image services cache (new_pusher b.pusher) ref b.desc action b.w3 ≡ (ok nothing, w')
  unfolding build_image new_pusher remote_push_image
  build_image_stored action ref w new w' b =
      simp (b.base_of, b.mutated, b.layers_of, b.uploaded, b.pushed) refl

  pub build_stored :
      (action : Action) (ref : Reference) (w : World R) (new : Image) (w' : World R)
      → parse_reference (stored_name action) ≡ ok ref
      → Registered action ref w new w'
      → build services cache action w ≡ (ok nothing, w')
  unfolding build on_handler
  build_stored action ref w new w' to b =
      let push : Described → Pusher (World R) × Reference → Exec (World R) (Unit {0}) = λ desc dest.
        if desc.is_index
        then build_index services cache dest.0 dest.1 desc action
        else build_image services cache dest.0 dest.1 desc action in
      let placed : Described → Exec (World R) (Unit {0}) = λ desc.
        on_handler (λ h. (h, h.storage_registry)) >>= λ registry.
        destination_of services cache registry action >>= push desc in
      bind_ok (lift (parse_reference (get_base_image action)))
        (λ source. get_puller services cache source >>= λ p. p.get source >>= placed)
        (ap (λ r. (r, w)) b.parsed)
      ∙ bind_ok (get_puller services cache b.source) (λ p. p.get b.source >>= placed) {s = w}
          b.connected
      ∙ bind_ok (b.puller.get b.source) placed b.got
      ∙ bind_ok (destination_of services cache b.w2.handler.storage_registry action) (push b.desc) (
          destination_stored action b.w2 b.w3 ref (new_pusher b.pusher) b.stored to
            b.connected_storage)
      ∙ ap
          (λ x.
            (if x
                then build_index services cache (new_pusher b.pusher) ref b.desc action
                else build_image services cache (new_pusher b.pusher) ref b.desc action)
              b.w3)
          b.single
      ∙ build_image_stored action ref w new w' b
