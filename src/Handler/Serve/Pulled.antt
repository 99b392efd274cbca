-- ===== src/Handler/Serve/Pulled.antt =====
-- pkg/handler/handler.go and pkg/handler/serve.go, down to the cache directory: a client that pulls an
-- image which is not in the cache yet.
use jitdi.Base.{
  ◌≡◌, refl, sym, subst, ap, ◌∙◌, true, none, some, All, [], ◌++◌, Bytes, codes, Lacks, lookup,
  bytes_eq, bytes_eq_iff, Bool-cases, inl, inr,
}
use jitdi.Exec.{Result, ok, nothing}
use jitdi.Container.{Image, Reference}
use jitdi.Disk.{Disk}
use jitdi.Pattern.Rule.{Action, get_match_image}
use jitdi.Storage.Paths.{local_manifest_path, IsHex}
use jitdi.Storage.Layers.Addressed.{IsAddressed}
use jitdi.Storage.Pusher.{local_push_image}
use jitdi.Storage.Pusher.Complete.{IsSoundImage, local_push_image_complete}
use jitdi.Handler.Serve.Built.{Made, build_made}
use jitdi.Storage.Layers.{has_tag}
use jitdi.Handler.Rules.{get_image_rules}
use jitdi.Handler.Select.{find_action}
use jitdi.Handler.Select.Sorting.{Sorter}
use jitdi.Handler.Route.Laws.{resource_path, IsRead}
use jitdi.Handler.Build.{World, Services, Cache, build}
use jitdi.Handler.Serve.{Decoders}
use jitdi.Storage.Pusher.Frame.{local_push_image_elsewhere}
use jitdi.Handler.Serve.Reads.{
  serve, ServesLayer, IsServed, kept-IsServed, kept-ServesLayers, serve_manifests, put_there,
  found_answer, local_manifests_behind, serve_manifest_behind, push_image_on_disk,
}

module _ {R : Type 0} (decoders : Decoders) (services : Services R) (cache : Cache)
    (sorter : Sorter) where
  -- Where a sound image's manifest can be found behind the push: only under the image's own name and
  -- tag.
  pushed_there :
      (ref : Reference) (new : Image) (sound : IsSoundImage services.sum_sha256 new)
      (image tag : Bytes) (d : Disk)
      → IsHex (services.sum_sha256 sound.manifest)
      → lookup
          (local_manifest_path cache.manifest_path ref.repository ref.identifier)
          (local_push_image services.sum_sha256 cache.blob_path cache.manifest_path ref new
            d).1.files
        ≡ some sound.manifest
      → lookup (local_manifest_path cache.manifest_path image tag) d.files ≡ none
      → lookup
          (local_manifest_path cache.manifest_path image tag)
          (local_push_image services.sum_sha256 cache.blob_path cache.manifest_path ref new
            d).1.files
        ≡ put_there
            (bytes_eq
              (local_manifest_path cache.manifest_path ref.repository ref.identifier)
              (local_manifest_path cache.manifest_path image tag))
            sound.manifest
  pushed_there ref new sound image tag d hex tagged absent =
      let q = local_manifest_path cache.manifest_path ref.repository ref.identifier in
      let p = local_manifest_path cache.manifest_path image tag in
      let pushed =
        local_push_image services.sum_sha256 cache.blob_path cache.manifest_path ref new d in
      elim (Bool-cases (bytes_eq q p)) [
        | inl e ↦ rw e (ap (λ p. lookup p pushed.1.files) (sym ((bytes_eq_iff q p).0 e)) ∙ tagged)
        | inr e ↦ rw e (
            local_push_image_elsewhere services.sum_sha256 cache.blob_path cache.manifest_path image
              tag ref new sound d hex e
            ∙ absent)
      ]

  -- With no storage registry and no fault: a client asks for a tag whose manifest is not in the cache,
  -- by GET or HEAD of `/v2/IMAGE/manifests/TAG`; the first rule that matches gives an action about a
  -- single image, whose base can be fetched and mutated to a sound image; that leaves no fault, no
  -- storage registry, no manifest of that image and tag and a cache whose blobs have the contents that
  -- their paths name; the sum of the new manifest is in hexadecimal digits; the name that the action is
  -- about is parsed as some reference with a tag. Then the answer is the manifest of the new image,
  -- byte for byte and under the media type that it names, if the path of that reference's manifest is
  -- that of the image and the tag that were asked for, and the status 404 if it is another; in either
  -- case, in the state behind it, each layer and the configuration of the new image are served under
  -- `/v2/…/blobs/sha256:…`, with contents of the digest asked for.
  pub serve_http_pull :
      (method image tag media_type : Bytes) (action : Action) (w w3 : World R) (new : Image)
      (ref : Reference) (sound : IsSoundImage services.sum_sha256 new)
      → IsRead method
      → Lacks b'/' tag
      → has_tag image tag ≡ true
      → w.handler.storage_registry ≡ []
      → w.disk.faults ≡ []
      → lookup (local_manifest_path cache.manifest_path image tag) w.disk.files ≡ none
      → find_action (get_image_rules sorter w.handler).1 (image ++ (codes ":" ++ tag)) ≡ some action
      → Made services cache action
          (record w { handler = (get_image_rules sorter w.handler).0 })
          new
          w3
      → services.parse_reference (get_match_image action) ≡ ok ref
      → has_tag ref.repository ref.identifier ≡ true
      → w3.handler.storage_registry ≡ []
      → w3.disk.faults ≡ []
      → lookup (local_manifest_path cache.manifest_path image tag) w3.disk.files ≡ none
      → IsAddressed services.sum_sha256 cache.blob_path w3.disk.files
      → IsHex (services.sum_sha256 sound.manifest)
      → decoders.decode_media_type sound.manifest ≡ ok media_type
      → ((serve decoders services cache sorter method
            (resource_path image (codes "manifests") tag)
            w).0
          ≡ ok (
              found_answer
                (bytes_eq
                  (local_manifest_path cache.manifest_path ref.repository ref.identifier)
                  (local_manifest_path cache.manifest_path image tag))
                media_type
                sound.manifest))
        × All
            (ServesLayer decoders services cache sorter
              (serve decoders services cache sorter method
                (resource_path image (codes "manifests") tag)
                w).1)
            sound.layers
        × IsServed decoders services cache sorter
            (serve decoders services cache sorter method
              (resource_path image (codes "manifests") tag)
              w).1
            sound.config_hash.hex
  serve_http_pull method image tag media_type action w w3 new ref sound r l t local calm missing
        rule made to t' local' calm' absent addressed hex_digits m =
      let w1 : World R = record w { handler = (get_image_rules sorter w.handler).0 } in
      let pushed : Result (Unit {0}) × Disk =
        local_push_image services.sum_sha256 cache.blob_path cache.manifest_path ref new w3.disk in
      let w' : World R = record w3 { disk = pushed.1 } in
      let p = local_manifest_path cache.manifest_path image tag in
      let there =
        bytes_eq (local_manifest_path cache.manifest_path ref.repository ref.identifier) p in
      let (went, has, tagged, _) =
        local_push_image_complete services.sum_sha256 cache.blob_path new sound cache.manifest_path
          hex_digits ref w3.disk t' calm' addressed in
      let built : build services cache action w1 ≡ (ok nothing, w') =
        build_made services cache action w1 new w3 ref made to
        ∙ push_image_on_disk decoders services cache ref new w3
        ∙ ap (λ r. (r, w')) went.returned in
      let served =
        serve_manifests decoders services cache sorter method image tag action w r l t local rule
        ∙ local_manifests_behind decoders services cache (bytes_eq method (codes "HEAD")) image tag
            action w1 w' calm missing built
        ∙ serve_manifest_behind decoders services cache there p sound.manifest media_type w'
            went.calm (pushed_there ref new sound image tag w3.disk hex_digits tagged absent) m in
      subst
        (λ a.
          (a.0 ≡ ok (found_answer there media_type sound.manifest))
          × All (ServesLayer decoders services cache sorter a.1) sound.layers
          × IsServed decoders services cache sorter a.1 sound.config_hash.hex)
        (sym served)
        (
          refl,
          kept-ServesLayers decoders services cache sorter w' sound.layers local' went.calm
              sound.sound has.has_layers,
          kept-IsServed decoders services cache sorter w' sound.config_hash.hex sound.hex local'
              went.calm has.has_config,
        )
