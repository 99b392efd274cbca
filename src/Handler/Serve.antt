-- ===== src/Handler/Serve.antt =====
-- pkg/handler/serve.go, with `ServeHTTP` and `manifests` of pkg/handler/handler.go: how a request is
-- answered, from the cache directory or from the storage registry.
pub mod Cached
pub mod Answers
pub mod Built
pub mod Reads
pub mod Pulled
pub mod PulledIndex
pub mod Stored
pub mod Forwarded
use jitdi.Base.{
  ℕ, Bool, true, false, Option, none, some, List, [], ◌∷◌, ◌++◌, Bytes, codes, bytes_eq, has_prefix,
  has_suffix, is_empty, if◌then◌else◌,
}
use jitdi.Exec.{Exec, Error, Result, ok, err, not_exist, ◌>>=◌, ◌>>◌, try, pure, lift}
use jitdi.Container.{Reference, Described, RemoteLayer}
use jitdi.Disk.{M, read, touch}
use jitdi.Pattern.Rule.{Action, get_match_image}
use jitdi.Storage.Paths.{local_blob_path, local_manifest_path}
use jitdi.Handler.Rules.{Handler, get_image_rules}
use jitdi.Handler.Select.{find_action}
use jitdi.Handler.Select.Sorting.{Sorter}
use jitdi.Handler.Route.{Route, not_found, unsupported, version_check, blobs, manifests, route}
use jitdi.Handler.Reply.{
  Reply, Body, empty, written, content, reg_error, RegError, reg_err_internal, reg_err_blob_unknown,
  reg_err_unsupported, reg_err_not_found, refused,
}
use jitdi.Handler.Build.{World, Services, Cache, on_disk, on_handler, get_puller, build}

-- The library's `name.NewDigest`, the decoder of the one field of a manifest, `Error`.
pub record Decoders : Type 0 where
  pub new_digest : Bytes → Result Reference
  pub decode_media_type : Bytes → Result Bytes
  pub describe : Error → Bytes

abbrev pub reply_with : Option Bytes → Option ℕ → Body → Reply
reply_with content_type content_length body = record {
  content_type = content_type;
  content_length = content_length;
  body = body;
}

module _ (decoders : Decoders) where
  open decoders use {new_digest, decode_media_type, describe}

  abbrev pub internal : Error → Reply
  internal e = refused (reg_err_internal describe e)

  -- The end of a reply whose headers are set: its contents, unless the request is `HEAD`.
  unfoldable pub finish : Bool → Bytes → ℕ → Result Bytes → Reply
  unfolding reg_err_internal
  finish is_head media_type size contents = reply_with (some media_type) (some size) (
      if is_head
      then empty
      else elim contents [ ok s ↦ written s | err e ↦ reg_error (reg_err_internal describe e) ])

  -- `layer.Compressed` or `layer.Uncompressed`
  unfoldable pub blob_contents : Bytes → RemoteLayer → Result Bytes
  unfolding has_suffix
  blob_contents media_type layer =
      if has_suffix media_type (codes "gzip") then layer.compressed else layer.uncompressed

  module _ {R : Type 0} where
    answer_internal : Result Reply → Exec (World R) Reply
    answer_internal (ok reply) = pure reply
    answer_internal (err e) = pure (internal e)

    -- Every error on the way is answered with an internal error, no header being set yet.
    unfoldable pub or_internal : Exec (World R) Reply → Exec (World R) Reply
    unfolding answer_internal reg_err_internal
    or_internal m = try m answer_internal

    -- Behind `os.Open`: an absent file has an answer of its own.
    opened : RegError → (Bytes → Exec (World R) Reply) → Result Bytes → Exec (World R) Reply
    opened absent next (ok contents) = next contents
    opened absent next (err not_exist) = pure (refused absent)
    opened absent next (err e) = pure (internal e)

    unfoldable pub serve_blob : Bytes → Exec (World R) Reply
    unfolding on_disk read touch opened or_internal reg_err_internal
    serve_blob blob_path = try (on_disk (read blob_path)) (
        opened reg_err_blob_unknown (λ contents.
          or_internal (do on_disk touch; pure (reply_with none none (content contents)))))

    unfoldable pub serve_manifest : Bytes → Exec (World R) Reply
    unfolding on_disk read touch opened or_internal reg_err_internal
    serve_manifest manifest_path = try (on_disk (read manifest_path)) (
        opened reg_err_not_found (λ contents. or_internal (do
          media_type ← lift (decode_media_type contents)
          on_disk touch
          pure (reply_with (some media_type) none (content contents)))))

    module _ (services : Services R) (cache : Cache) (storage_registry : Bytes)
        (is_head : Bool) where
      unfoldable pub forward_blob : Bytes → Bytes → Exec (World R) Reply
      unfolding or_internal get_puller finish blob_contents
      forward_blob image hash = or_internal (do
        ref ← lift (new_digest (storage_registry ++ (codes "/" ++ (image ++ (codes "@" ++ hash)))))
        puller ← get_puller services cache ref
        layer ← puller.layer ref
        media_type ← lift layer.media_type
        size ← lift layer.size
        pure (finish is_head media_type size (blob_contents media_type layer)))

      unfoldable pub forward_manifest_blob : Bytes → Bytes → Exec (World R) Reply
      unfolding or_internal get_puller finish
      forward_manifest_blob image hash = or_internal (do
        ref ← lift (new_digest (storage_registry ++ (codes "/" ++ (image ++ (codes "@" ++ hash)))))
        puller ← get_puller services cache ref
        desc ← puller.get ref
        pure (finish is_head desc.media_type desc.size desc.manifest))

      -- The image, built if the registry does not have it.
      pulled : Exec (World R) Described → Action → Result Described → Exec (World R) Described
      unfolding build
      pulled get action (ok desc) = pure desc
      pulled get action (err e) = build services cache action >> get

      unfoldable pub forward_manifest : Action → Exec (World R) Reply
      unfolding or_internal get_puller pulled finish
      forward_manifest action = or_internal (do
        ref ←
            lift
              (services.parse_reference (storage_registry ++ (codes "/" ++ get_match_image action)))
        puller ← get_puller services cache ref
        desc ← try (puller.get ref) (pulled (puller.get ref) action)
        manifest ← lift desc.manifest
        pure (finish is_head desc.media_type desc.size (ok manifest)))

      -- Behind `os.Stat`.
      built_unless : Bytes → Action → Result Bytes → Exec (World R) Reply
      unfolding or_internal build serve_manifest
      built_unless manifest_path action (ok contents) = serve_manifest manifest_path
      built_unless manifest_path action (err e) =
          try (build services cache action)
            (λ r. elim r [ ok u ↦ serve_manifest manifest_path | err e ↦ pure (internal e) ])

      unfoldable pub local_manifests : Bytes → Bytes → Action → Exec (World R) Reply
      unfolding forward_manifest on_disk read built_unless
      local_manifests image tag action =
          if is_empty storage_registry
          then try (on_disk (read (local_manifest_path cache.manifest_path image tag)))
              (built_unless (local_manifest_path cache.manifest_path image tag) action)
          else forward_manifest action

      unfoldable pub blobs_of : Bytes → Bytes → Exec (World R) Reply
      unfolding forward_blob serve_blob
      blobs_of image hash =
          if is_empty storage_registry
          then serve_blob (local_blob_path cache.blob_path hash)
          else forward_blob image hash

      chosen : Bytes → Bytes → Option Action → Exec (World R) Reply
      unfolding local_manifests
      chosen image tag none = pure (refused reg_err_not_found)
      chosen image tag (some action) = local_manifests image tag action

      module _ (sorter : Sorter) where
        by_tag : Bytes → Bytes → Exec (World R) Reply
        unfolding on_handler get_image_rules find_action chosen
        by_tag image tag = do
          rules ← on_handler (get_image_rules sorter)
          chosen image tag (find_action rules (image ++ (codes ":" ++ tag)))

        unfoldable pub manifests_of : Bytes → Bytes → Exec (World R) Reply
        unfolding forward_manifest_blob serve_manifest by_tag
        manifests_of image tag =
            if has_prefix tag (codes "sha256:")
            then (if is_empty storage_registry
                then serve_manifest (local_blob_path cache.blob_path tag)
                else forward_manifest_blob image tag)
            else by_tag image tag

        -- Where `ServeHTTP` sends a request.
        unfoldable pub respond : Route → Exec (World R) Reply
        unfolding blobs_of manifests_of
        respond not_found = pure (refused reg_err_not_found)
        respond unsupported = pure (refused reg_err_unsupported)
        respond version_check = pure (reply_with none none (written (codes "{}")))
        respond (blobs image hash) = blobs_of image hash
        respond (manifests image tag) = manifests_of image tag

    unfoldable pub serve_http : Services R → Cache → Sorter → Bytes → Bytes → Exec (World R) Reply
    unfolding on_handler respond route bytes_eq
    serve_http services cache sorter method path = do
      storage_registry ← on_handler (λ h. (h, h.storage_registry))
      respond services cache storage_registry (bytes_eq method (codes "HEAD")) sorter
          (route method path)
