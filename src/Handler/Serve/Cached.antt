-- ===== src/Handler/Serve/Cached.antt =====
-- pkg/handler/serve.go: requests that the cache directory answers.
use jitdi.Base.{
  ◌≡◌, refl, sym, ap, ◌∙◌, Bool, true, none, some, [], arith, Bytes, lookup, Option-cases, inl, inr,
}
use jitdi.Exec.{ok, err, attempt, not_exist}
use jitdi.Disk.{read}
use jitdi.Pattern.Rule.{Action}
use jitdi.Storage.Paths.{local_blob_path, local_manifest_path}
use jitdi.Storage.Layers.{has_tag, save_manifest}
use jitdi.Storage.Pusher.Local.{save_manifest_found, save_manifest-faults}
use jitdi.Handler.Reply.{content, reg_err_blob_unknown, refused}
use jitdi.Handler.Build.{World, Services, Cache, on_disk}
use jitdi.Handler.Serve.{
  Decoders, reply_with, serve_blob, serve_manifest, blobs_of, built_unless, local_manifests,
}

module _ {R : Type 0} (decoders : Decoders) where
  serve_blob_found :
      (p s : Bytes) (w : World R)
      → w.disk.faults ≡ []
      → lookup p w.disk.files ≡ some s
      → (serve_blob decoders p w).0 ≡ ok (reply_with none none (content s))
  unfolding serve_blob
  serve_blob_found p s w h e = ground (arith, h, e)

  serve_blob_missing :
      (p : Bytes) (w : World R)
      → w.disk.faults ≡ []
      → lookup p w.disk.files ≡ none
      → (serve_blob decoders p w).0 ≡ ok (refused reg_err_blob_unknown)
  unfolding serve_blob
  serve_blob_missing p w h e = ground (arith, h, e)

  pub serve_manifest_found :
      (p s media_type : Bytes) (w : World R)
      → w.disk.faults ≡ []
      → lookup p w.disk.files ≡ some s
      → decoders.decode_media_type s ≡ ok media_type
      → (serve_manifest decoders p w).0 ≡ ok (reply_with (some media_type) none (content s))
  unfolding serve_manifest
  serve_manifest_found p s media_type w h e m = ground (arith, h, e, m)

  pub read_found :
      (p s : Bytes) (w : World R)
      → w.disk.faults ≡ []
      → lookup p w.disk.files ≡ some s
      → on_disk (read p) w ≡ (ok s, record w { disk = record w.disk { faults = [] } })
  unfolding read on_disk
  read_found p s w h e = ground (arith, h, e)

  local_manifests_found :
      (services : Services R) (cache : Cache) (is_head : Bool) (image tag s media_type : Bytes)
      (action : Action) (w : World R)
      → w.disk.faults ≡ []
      → lookup (local_manifest_path cache.manifest_path image tag) w.disk.files ≡ some s
      → decoders.decode_media_type s ≡ ok media_type
      → (local_manifests decoders services cache [] is_head image tag action w).0
        ≡ ok (reply_with (some media_type) none (content s))
  unfolding local_manifests
  local_manifests_found services cache is_head image tag s media_type action w h e m =
      let p = local_manifest_path cache.manifest_path image tag in
      ap (λ r. (attempt (built_unless decoders services cache [] is_head p action) r).0)
        (read_found p s w h e)
      ∙ serve_manifest_found p s media_type (record w { disk = record w.disk { faults = [] } }) refl
          e m

  -- With no storage registry and no fault, after a manifest was saved under a tag, a request for that
  -- tag is answered with that manifest, byte for byte and under the media type that it names, whatever
  -- rule was found and whatever a build would have done.
  pub local_manifests-save_manifest :
      (services : Services R) (cache : Cache) (is_head : Bool) (sum_sha256 : Bytes → Bytes)
      (manifest_blob image tag media_type : Bytes) (action : Action) (w : World R)
      → w.disk.faults ≡ []
      → has_tag image tag ≡ true
      → decoders.decode_media_type manifest_blob ≡ ok media_type
      → (local_manifests decoders services cache [] is_head image tag action (record w {
        disk =
            (save_manifest sum_sha256 manifest_blob cache.blob_path cache.manifest_path image tag
              w.disk).1;
      })).0
        ≡ ok (reply_with (some media_type) none (content manifest_blob))
  local_manifests-save_manifest services cache is_head sum blob image tag media_type action w h t
        m =
      let d = (save_manifest sum blob cache.blob_path cache.manifest_path image tag w.disk).1 in
      local_manifests_found services cache is_head image tag blob media_type action
        (record w { disk = d })
        (save_manifest-faults sum blob cache.blob_path cache.manifest_path image tag w.disk t h)
        (save_manifest_found sum blob cache.blob_path cache.manifest_path image tag w.disk t h).1 m

  -- With no storage registry and no fault, after a manifest was saved under a tag, a request for the
  -- blob under the manifest's digest is answered with the same bytes.
  blobs_of-save_manifest :
      (services : Services R) (cache : Cache) (is_head : Bool) (sum_sha256 : Bytes → Bytes)
      (manifest_blob image tag repository : Bytes) (w : World R)
      → w.disk.faults ≡ []
      → has_tag image tag ≡ true
      → (blobs_of decoders services cache [] is_head repository
          (sum_sha256 manifest_blob)
          (record w {
            disk =
                (save_manifest sum_sha256 manifest_blob cache.blob_path cache.manifest_path image
                  tag w.disk).1;
          })).0
        ≡ ok (reply_with none none (content manifest_blob))
  unfolding blobs_of
  blobs_of-save_manifest services cache is_head sum blob image tag repository w h t =
      let d = (save_manifest sum blob cache.blob_path cache.manifest_path image tag w.disk).1 in
      serve_blob_found (local_blob_path cache.blob_path (sum blob)) blob (record w { disk = d })
        (save_manifest-faults sum blob cache.blob_path cache.manifest_path image tag w.disk t h)
        (save_manifest_found sum blob cache.blob_path cache.manifest_path image tag w.disk t h).2

  -- With no storage registry and no fault, a request for a blob is answered with the file under the
  -- blob's path, or with "blob unknown" if there is none.
  pub blobs_of_cached :
      (services : Services R) (cache : Cache) (is_head : Bool) (image hash : Bytes) (w : World R)
      → w.disk.faults ≡ []
      → (blobs_of decoders services cache [] is_head image hash w).0
        ≡ ok (elim (lookup (local_blob_path cache.blob_path hash) w.disk.files) [
          | none ↦ refused reg_err_blob_unknown
          | some s ↦ reply_with none none (content s)
        ])
  unfolding blobs_of
  blobs_of_cached services cache is_head image hash w h =
      let p = local_blob_path cache.blob_path hash in
      elim (Option-cases (lookup p w.disk.files)) [
        | inl e ↦ serve_blob_missing p w h e ∙ rw e refl
        | inr (s, e) ↦ serve_blob_found p s w h e ∙ rw e refl
      ]

  pub no_faults :
      (w : World R) → w.disk.faults ≡ [] → record w { disk = record w.disk { faults = [] } } ≡ w
  no_faults w h = sym (ap (λ f. record w { disk = record w.disk { faults = f } }) h)

  pub read_missing :
      (p : Bytes) (w : World R)
      → w.disk.faults ≡ []
      → lookup p w.disk.files ≡ none
      → on_disk (read p) w ≡ (err not_exist, record w { disk = record w.disk { faults = [] } })
  unfolding read on_disk
  read_missing p w h e = ground (arith, h, e)
