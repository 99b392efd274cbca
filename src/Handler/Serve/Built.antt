-- ===== src/Handler/Serve/Built.antt =====
-- pkg/handler/serve.go with pkg/handler/handler.go and pkg/storage/local.go: a request for an image that
-- is not in the cache yet.
use jitdi.Base.{◌≡◌, refl, ap, ◌∙◌, Bool, true, false, none, some, [], Bytes, lookup, if◌then◌else◌}
use jitdi.Exec.{Exec, ◌>>=◌, Error, Result, ok, err, nothing, attempt, not_exist, lift, pure}
use jitdi.Container.{Image, Reference, Described, RemotePuller}
use jitdi.Disk.{Disk}
use jitdi.Pattern.Rule.{Action, get_match_image, get_base_image, get_mutates}
use jitdi.Storage.Paths.{local_manifest_path}
use jitdi.Storage.Layers.{has_tag, save_manifest}
use jitdi.Exec.Outcome.{bind_ok}
use jitdi.Storage.Pusher.{Pusher, new_local_pusher, save_contents, local_push_image}
use jitdi.Storage.Pusher.Local.{save_manifest_found, save_manifest-faults}
use jitdi.Handler.Mutates.{mutate_image}
use jitdi.Handler.Reply.{content}
use jitdi.Handler.Build.{
  World, Services, Cache, on_disk, on_handler, get_puller, local_pusher, destination_of,
  build_index, build_image, build,
}
use jitdi.Handler.Serve.{Decoders, reply_with, built_unless, local_manifests}
use jitdi.Handler.Serve.Cached.{serve_manifest_found, read_missing, no_faults}

module _ {R : Type 0} (services : Services R) (cache : Cache) where
  open services use {parse_reference, sum_sha256, layer_ops, sources}

  -- The image of an action, as the base image has it and the mutations leave it, and the worlds in
  -- between.
  pub record Made (action : Action) (w : World R) (new : Image) (w3 : World R) : Type 0 where
    pub source : Reference
    pub puller : RemotePuller (World R)
    pub desc : Described
    pub base : Image
    pub w1 : World R
    pub w2 : World R
    pub parsed : parse_reference (get_base_image action) ≡ ok source
    pub connected : get_puller services cache source w ≡ (ok puller, w1)
    pub got : puller.get source w1 ≡ (ok desc, w2)
    pub local : w2.handler.storage_registry ≡ []
    pub single : desc.is_index ≡ false
    pub base_of : desc.image ≡ ok base
    pub mutated :
        mutate_image layer_ops sources base (get_mutates action desc.platform).1 cache.link_path w2
        ≡ (ok new, w3)

  push_local :
      (ref : Reference) (new : Image) (m : Bytes) (w : World R) (d : Disk)
      → save_contents cache.blob_path new w.disk ≡ (ok nothing, d)
      → new.raw_manifest ≡ ok m
      → (local_pusher sum_sha256 cache).push_image ref new w ≡ (
        (save_manifest sum_sha256 m cache.blob_path cache.manifest_path ref.repository
            ref.identifier d).0,
        record w {
          disk =
              (save_manifest sum_sha256 m cache.blob_path cache.manifest_path ref.repository
                ref.identifier d).1;
        },
      )
  unfolding local_pusher on_disk local_push_image new_local_pusher
  push_local ref new m w d saved e = simp (saved, e) refl

  destination_local :
      (action : Action) (w : World R) (ref : Reference)
      → w.handler.storage_registry ≡ []
      → parse_reference (get_match_image action) ≡ ok ref
      → destination_of services cache w.handler.storage_registry action w
        ≡ (ok (local_pusher sum_sha256 cache, ref), w)
  unfolding destination_of
  destination_local action w ref local to =
      ap (λ storage_registry. destination_of services cache storage_registry action w) local
      ∙ bind_ok (lift (parse_reference (get_match_image action)))
          (λ ref. pure (local_pusher sum_sha256 cache, ref)) (ap (λ r. (r, w)) to)

  build_image_made :
      (pusher : Pusher (World R)) (ref : Reference) (desc : Described) (action : Action)
      (base new : Image) (w w' : World R)
      → desc.image ≡ ok base
      → mutate_image layer_ops sources base (get_mutates action desc.platform).1 cache.link_path w
        ≡ (ok new, w')
      → build_image services cache pusher ref desc action w ≡ pusher.push_image ref new w'
  unfolding build_image
  build_image_made pusher ref desc action base new w w' e mutated =
      bind_ok (lift desc.image) _ (ap (λ r. (r, w)) e)
      ∙ bind_ok
          (mutate_image layer_ops sources base (get_mutates action desc.platform).1 cache.link_path)
          _ mutated

  -- What the base image's registry says of it, where images are pushed into the cache directory.
  pub record Fetched (action : Action) (w : World R) (desc : Described) (w2 : World R)
      : Type 0 where
    pub source : Reference
    pub puller : RemotePuller (World R)
    pub w1 : World R
    pub parsed : parse_reference (get_base_image action) ≡ ok source
    pub connected : get_puller services cache source w ≡ (ok puller, w1)
    pub got : puller.get source w1 ≡ (ok desc, w2)
    pub local : w2.handler.storage_registry ≡ []

  pub build-Fetched :
      (action : Action) (w : World R) (desc : Described) (w2 : World R) (ref : Reference) (b : Bool)
      → Fetched action w desc w2
      → parse_reference (get_match_image action) ≡ ok ref
      → desc.is_index ≡ b
      → build services cache action w
        ≡ (if b
              then build_index services cache (local_pusher sum_sha256 cache) ref desc action
              else build_image services cache (local_pusher sum_sha256 cache) ref desc action)
            w2
  unfolding build on_handler
  build-Fetched action w desc w2 ref b fetched to kind =
      let local : Pusher (World R) = local_pusher sum_sha256 cache in
      let push : Described → Pusher (World R) × Reference → Exec (World R) (Unit {0}) = λ desc dest.
        if desc.is_index
        then build_index services cache dest.0 dest.1 desc action
        else build_image services cache dest.0 dest.1 desc action in
      let placed : Described → Exec (World R) (Unit {0}) = λ desc.
        on_handler (λ h. (h, h.storage_registry)) >>= λ registry.
        destination_of services cache registry action >>= push desc in
      bind_ok (lift (parse_reference (get_base_image action)))
        (λ source. get_puller services cache source >>= λ p. p.get source >>= placed)
        (ap (λ r. (r, w)) fetched.parsed)
      ∙ bind_ok (get_puller services cache fetched.source) (λ p. p.get fetched.source >>= placed)
          {s = w} fetched.connected
      ∙ bind_ok (fetched.puller.get fetched.source) placed fetched.got
      ∙ bind_ok (destination_of services cache w2.handler.storage_registry action) (push desc)
          (destination_local action w2 ref fetched.local to)
      ∙ ap
          (λ b.
            (if b
                then build_index services cache local ref desc action
                else build_image services cache local ref desc action)
              w2)
          kind

  pub build_made :
      (action : Action) (w : World R) (new : Image) (w3 : World R) (ref : Reference)
      → Made action w new w3
      → parse_reference (get_match_image action) ≡ ok ref
      → build services cache action w ≡ (local_pusher sum_sha256 cache).push_image ref new w3
  build_made action w new w3 ref made to =
      let fetched : Fetched action w made.desc made.w2 = record {
        source = made.source;
        puller = made.puller;
        w1 = made.w1;
        parsed = made.parsed;
        connected = made.connected;
        got = made.got;
        local = made.local;
      } in
      build-Fetched action w made.desc made.w2 ref false fetched to made.single
      ∙ build_image_made (local_pusher sum_sha256 cache) ref made.desc action made.base new made.w2
          w3 made.base_of made.mutated

  built_unless_made :
      (decoders : Decoders) (is_head : Bool) (p s media_type : Bytes) (action : Action) (e : Error)
      (w w' : World R)
      → build services cache action w ≡ (ok nothing, w')
      → w'.disk.faults ≡ []
      → lookup p w'.disk.files ≡ some s
      → decoders.decode_media_type s ≡ ok media_type
      → (built_unless decoders services cache [] is_head p action (err e) w).0
        ≡ ok (reply_with (some media_type) none (content s))
  unfolding built_unless
  built_unless_made decoders is_head p s media_type action e w w' built h found m =
      rw built (serve_manifest_found decoders p s media_type w' h found m)

-- With no storage registry and no fault, where the manifest of a tag is not in the cache and its action
-- is about a single image that can be fetched, mutated and saved, a request for the tag is answered
-- with the manifest of the new image, byte for byte and under the media type that it names. The name
-- that the action is about has to be parsed as the image and the tag of the request.
local_manifests-build :
    {R : Type 0} (decoders : Decoders) (services : Services R) (cache : Cache) (is_head : Bool)
    (image tag : Bytes) (action : Action) (w w3 : World R) (new : Image) (ref : Reference)
    (manifest_blob media_type : Bytes) (d : Disk)
    → w.disk.faults ≡ []
    → lookup (local_manifest_path cache.manifest_path image tag) w.disk.files ≡ none
    → Made services cache action w new w3
    → services.parse_reference (get_match_image action) ≡ ok ref
    → ref.repository ≡ image
    → ref.identifier ≡ tag
    → has_tag image tag ≡ true
    → save_contents cache.blob_path new w3.disk ≡ (ok nothing, d)
    → d.faults ≡ []
    → new.raw_manifest ≡ ok manifest_blob
    → decoders.decode_media_type manifest_blob ≡ ok media_type
    → (local_manifests decoders services cache [] is_head image tag action w).0
      ≡ ok (reply_with (some media_type) none (content manifest_blob))
unfolding local_manifests
local_manifests-build {R = R} decoders services cache is_head image tag action w w3 new ref blob
      media_type d h missing made to eq_image eq_tag t saved calm eq_blob m =
    let p = local_manifest_path cache.manifest_path image tag in
    let after : Bytes → Bytes → Result (Unit {0}) × World R = λ name tag.
      let r =
        save_manifest services.sum_sha256 blob cache.blob_path cache.manifest_path name tag d in
      (r.0, record w3 { disk = r.1 }) in
    let found =
      save_manifest_found services.sum_sha256 blob cache.blob_path cache.manifest_path image tag d t
        calm in
    let still =
      save_manifest-faults services.sum_sha256 blob cache.blob_path cache.manifest_path image tag d
        t calm in
    ap (λ r. (attempt (built_unless decoders services cache [] is_head p action) r).0)
      (read_missing decoders p w h missing
        ∙ ap (λ (w : World R). (err not_exist, w)) (no_faults decoders w h))
    ∙ built_unless_made services cache decoders is_head p blob media_type action not_exist w
        (after image tag).1
        (build_made services cache action w new w3 ref made to
          ∙ push_local services cache ref new blob w3 d saved eq_blob
          ∙ ap (λ name. after name ref.identifier) eq_image
          ∙ ap (after image) eq_tag
          ∙ ap (λ r. (r, (after image tag).1)) found.0)
        still found.1 m
