-- ===== src/Handler/Serve/Reads.antt =====
-- pkg/handler/handler.go and pkg/handler/serve.go, down to the cache directory: reads of manifests and
-- blobs in the state that a build leaves.
use jitdi.Base.{
  ◌≡◌, refl, ap, ◌∙◌, Bool, true, false, Option, none, some, All, List, [], ◌∷◌, ◌++◌, arith, Bytes,
  codes, Lacks, lookup, has_prefix, bytes_eq,
}
use jitdi.Exec.{Result, ok, err, nothing, not_exist, attempt}
use jitdi.Container.{Hash, Layer, Image, Reference}
use jitdi.Pattern.Rule.{Action}
use jitdi.Storage.Paths.{
  local_blob_path, local_manifest_path, IsHex, blob_name, blob_name-IsPlainName,
  local_blob_path_sha256,
}
use jitdi.Storage.Layers.Saved.{IsSound, sound_digest-IsHex}
use jitdi.Storage.Pusher.{local_push_image, new_local_pusher}
use jitdi.Storage.Pusher.Steps.{IsKept, KeepsLayer}
use jitdi.Storage.Layers.{has_tag}
use jitdi.Handler.Rules.{get_image_rules}
use jitdi.Handler.Select.{find_action}
use jitdi.Handler.Select.Sorting.{Sorter}
use jitdi.Handler.Route.Laws.{resource_path, IsRead, route-resource_path}
use jitdi.Handler.Reply.{Reply, content, reg_error, refused, reg_err_not_found}
use jitdi.Handler.Build.{World, Services, Cache, on_disk, on_handler, local_pusher, build}
use jitdi.Handler.Serve.{
  Decoders, reply_with, serve_manifest, built_unless, local_manifests, chosen, by_tag, manifests_of,
  respond, serve_http,
}
use jitdi.Handler.Serve.Cached.{read_missing, no_faults, blobs_of_cached}

pub has_tag-has_prefix :
    (image tag : Bytes) → has_tag image tag ≡ true → has_prefix tag (codes "sha256:") ≡ false
has_tag-has_prefix image tag h = ground (arith, h)

-- The answer with a manifest that lies where it is looked for, or "Unknown name".
abbrev pub found_answer : Bool → Bytes → Bytes → Reply
found_answer true media_type s = record {
  content_type = some media_type;
  content_length = none;
  body = content s;
}
found_answer false media_type s = record {
  content_type = none;
  content_length = none;
  body =
      reg_error
        (record { status = 404; code = codes "NAME_UNKNOWN"; message = codes "Unknown name" });
}

-- What is there if a manifest was put there, and if not.
abbrev pub put_there : Bool → Bytes → Option Bytes
put_there true s = some s
put_there false s = none

module _ {R : Type 0} (decoders : Decoders) (services : Services R) (cache : Cache) where
  pub serve_manifest_read :
      (p s media_type : Bytes) (w : World R)
      → w.disk.faults ≡ []
      → lookup p w.disk.files ≡ some s
      → decoders.decode_media_type s ≡ ok media_type
      → serve_manifest decoders p w ≡ (
        ok (reply_with (some media_type) none (content s)),
        record w { disk = record w.disk { faults = [] } },
      )
  unfolding serve_manifest
  serve_manifest_read p s media_type w h e m = ground (arith, h, e, m)

  pub serve_manifest_absent :
      (p : Bytes) (w : World R)
      → w.disk.faults ≡ []
      → lookup p w.disk.files ≡ none
      → serve_manifest decoders p w
        ≡ (ok (refused reg_err_not_found), record w { disk = record w.disk { faults = [] } })
  unfolding serve_manifest
  serve_manifest_absent p w h e = ground (arith, h, e)

  -- Where the manifest is missing, it is served from the state that a build leaves.
  pub local_manifests_behind :
      (is_head : Bool) (image tag : Bytes) (action : Action) (w w' : World R)
      → w.disk.faults ≡ []
      → lookup (local_manifest_path cache.manifest_path image tag) w.disk.files ≡ none
      → build services cache action w ≡ (ok nothing, w')
      → local_manifests decoders services cache [] is_head image tag action w
        ≡ serve_manifest decoders (local_manifest_path cache.manifest_path image tag) w'
  unfolding local_manifests built_unless
  local_manifests_behind is_head image tag action w w' h missing built =
      let p = local_manifest_path cache.manifest_path image tag in
      ap (attempt (built_unless decoders services cache [] is_head p action)) (
        read_missing decoders p w h missing
        ∙ ap (λ (w : World R). (err not_exist, w)) (no_faults decoders w h))
      ∙ (rw built refl)

  pub serve_manifest_behind :
      (there : Bool) (p s media_type : Bytes) (w : World R)
      → w.disk.faults ≡ []
      → lookup p w.disk.files ≡ put_there there s
      → decoders.decode_media_type s ≡ ok media_type
      → serve_manifest decoders p w ≡ (ok (found_answer there media_type s), w)
  serve_manifest_behind true p s media_type w h e m =
      serve_manifest_read p s media_type w h e m
      ∙ ap (λ (w : World R). (ok (found_answer true media_type s), w)) (no_faults decoders w h)
  serve_manifest_behind false p s media_type w h e m =
      serve_manifest_absent p w h e
      ∙ ap (λ (w : World R). (ok (found_answer false media_type s), w)) (no_faults decoders w h)

  pub push_image_on_disk :
      (ref : Reference) (new : Image) (w : World R)
      → (local_pusher services.sum_sha256 cache).push_image ref new w ≡ (
        (local_push_image services.sum_sha256 cache.blob_path cache.manifest_path ref new w.disk).0,
        record w {
          disk =
              (local_push_image services.sum_sha256 cache.blob_path cache.manifest_path ref new
                w.disk).1;
        },
      )
  unfolding local_pusher on_disk new_local_pusher
  push_image_on_disk ref new w = refl

  module _ (sorter : Sorter) where
    abbrev pub serve : Bytes → Bytes → World R → Result Reply × World R
    serve method path = serve_http decoders services cache sorter method path

    pub serve_manifests :
        (method image tag : Bytes) (action : Action) (w : World R)
        → IsRead method
        → Lacks b'/' tag
        → has_tag image tag ≡ true
        → w.handler.storage_registry ≡ []
        → find_action (get_image_rules sorter w.handler).1 (image ++ (codes ":" ++ tag))
          ≡ some action
        → serve method (resource_path image (codes "manifests") tag) w
          ≡ local_manifests decoders services cache []
              (bytes_eq method (codes "HEAD"))
              image
              tag
              action
              (record w { handler = (get_image_rules sorter w.handler).0 })
    unfolding serve_http respond manifests_of by_tag chosen on_handler
    serve_manifests method image tag action w r l t local chosen_ =
        simp
          (
            (route-resource_path method image tag r l).0,
            has_tag-has_prefix image tag t,
            local,
            chosen_,
          )
          refl

    serve_blobs :
        (method image hex s : Bytes) (w : World R)
        → IsRead method
        → IsHex hex
        → w.handler.storage_registry ≡ []
        → w.disk.faults ≡ []
        → lookup (local_blob_path cache.blob_path hex) w.disk.files ≡ some s
        → (serve method (resource_path image (codes "blobs") (blob_name hex)) w).0
          ≡ ok (reply_with none none (content s))
    unfolding serve_http respond on_handler
    serve_blobs method image hex s w r p local calm e =
        let found : lookup (local_blob_path cache.blob_path (blob_name hex)) w.disk.files ≡ some s =
          ap (λ p. lookup p w.disk.files) (local_blob_path_sha256 cache.blob_path hex p) ∙ e in
        simp
          (
            (route-resource_path method image (blob_name hex) r
                (blob_name-IsPlainName hex p.1).0).1,
            local,
          )
          (blobs_of_cached decoders services cache (bytes_eq method (codes "HEAD")) image
              (blob_name hex) w calm
            ∙ rw found refl)

    -- Every read of the blob of a digest, under any image, is answered with contents of that digest.
    abbrev pub IsServed : World R → Bytes → Type 0
    IsServed w hex =
        (method image : Bytes)
        → IsRead method
        → (s : Bytes) × ((serve method (resource_path image (codes "blobs") (blob_name hex)) w).0
            ≡ ok (reply_with none none (content s)))
          × (services.sum_sha256 s ≡ hex)

    pub kept-IsServed :
        (w : World R) (hex : Bytes)
        → IsHex hex
        → w.handler.storage_registry ≡ []
        → w.disk.faults ≡ []
        → IsKept services.sum_sha256 cache.blob_path w.disk.files hex
        → IsServed w hex
    kept-IsServed w hex p local calm (s, e, eq) method image r =
        (s, serve_blobs method image hex s w r p local calm e, eq)

    -- The blob of a layer's digest is served.
    abbrev pub ServesLayer : World R → Layer → Type 0
    ServesLayer w layer = (h : Hash) → layer.digest true ≡ ok h → IsServed w h.hex

    pub kept-ServesLayers :
        (w : World R) (layers : List Layer)
        → w.handler.storage_registry ≡ []
        → w.disk.faults ≡ []
        → All (IsSound services.sum_sha256) layers
        → All (KeepsLayer services.sum_sha256 cache.blob_path w.disk.files) layers
        → All (ServesLayer w) layers
    kept-ServesLayers w [] local calm sound kept = tt
    kept-ServesLayers w (layer ∷ layers) local calm (s, sound) (k, kept) = (
      λ h e.
          kept-IsServed w h.hex (sound_digest-IsHex services.sum_sha256 layer s h e) local calm
            (k h e),
      kept-ServesLayers w layers local calm sound kept,
    )
