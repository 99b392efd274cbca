-- ===== src/Handler/Serve/Answers.antt =====
-- pkg/handler/serve.go: every answer to a request for a tag, without a storage registry.
use jitdi.Base.{
  ◌≡◌, refl, ap, ◌∙◌, Bool, Option, none, some, [], arith, Bytes, codes, lookup, Option-cases, inl,
  inr,
}
use jitdi.Exec.{Result, Error, ok, err, attempt, not_exist}
use jitdi.Pattern.Rule.{Action}
use jitdi.Storage.Paths.{local_manifest_path}
use jitdi.Handler.Reply.{Reply, content, reg_error}
use jitdi.Handler.Build.{World, Services, Cache, build}
use jitdi.Handler.Serve.{Decoders, serve_manifest, built_unless, local_manifests}
use jitdi.Handler.Serve.Cached.{read_found, read_missing, no_faults}

module _ (decoders : Decoders) where
  -- The answer under a server's error of that message.
  abbrev pub failed_answer : Error → Reply
  failed_answer e = record {
    content_type = none;
    content_length = none;
    body = reg_error (record {
      status = 500;
      code = codes "INTERNAL_SERVER_ERROR";
      message = decoders.describe e;
    });
  }

  -- The answer with a manifest, under the media type that it names.
  abbrev pub typed_answer : Bytes → Result Bytes → Reply
  typed_answer s (ok media_type) = record {
    content_type = some media_type;
    content_length = none;
    body = content s;
  }
  typed_answer s (err e) = failed_answer e

  -- The answer from what lies at the manifest's path.
  abbrev pub stored_answer : Option Bytes → Reply
  stored_answer none = record {
    content_type = none;
    content_length = none;
    body =
        reg_error
          (record { status = 404; code = codes "NAME_UNKNOWN"; message = codes "Unknown name" });
  }
  stored_answer (some s) = typed_answer s (decoders.decode_media_type s)

  -- The answer by what lay there at first, what the build returned and what lies there behind it.
  abbrev pub built_answer : Option Bytes → Result (Unit {0}) → Option Bytes → Reply
  built_answer (some s) built behind = stored_answer (some s)
  built_answer none (ok u) behind = stored_answer behind
  built_answer none (err e) behind = failed_answer e

module _ {R : Type 0} (decoders : Decoders) where
  serve_manifest_kept :
      (p s : Bytes) (w : World R)
      → w.disk.faults ≡ []
      → lookup p w.disk.files ≡ some s
      → (serve_manifest decoders p w).0 ≡ ok (stored_answer decoders (some s))
  unfolding serve_manifest
  serve_manifest_kept p s w h e = ground (arith, h, e)

  serve_manifest_gone :
      (p : Bytes) (w : World R)
      → w.disk.faults ≡ []
      → lookup p w.disk.files ≡ none
      → (serve_manifest decoders p w).0 ≡ ok (stored_answer decoders none)
  unfolding serve_manifest
  serve_manifest_gone p w h e = ground (arith, h, e)

  serve_manifest_answer :
      (p : Bytes) (w : World R)
      → w.disk.faults ≡ []
      → (serve_manifest decoders p w).0 ≡ ok (stored_answer decoders (lookup p w.disk.files))
  serve_manifest_answer p w h = elim (Option-cases (lookup p w.disk.files)) [
    | inl e ↦ rw e (serve_manifest_gone p w h e)
    | inr (s, e) ↦ rw e (serve_manifest_kept p s w h e)
  ]

  built_unless_answer :
      (services : Services R) (cache : Cache) (is_head : Bool) (p : Bytes) (action : Action)
      (w : World R) (r : Result (Unit {0}) × World R)
      → build services cache action w ≡ r
      → r.1.disk.faults ≡ []
      → (built_unless decoders services cache [] is_head p action (err not_exist) w).0
        ≡ ok (built_answer decoders none r.0 (lookup p r.1.disk.files))
  unfolding built_unless
  built_unless_answer services cache is_head p action w (ok u, w') e h =
      rw e (serve_manifest_answer p w' h)
  built_unless_answer services cache is_head p action w (err x, w') e h = rw e refl

  -- With no storage registry, no fault of the disk and none behind the build: a request for a tag is
  -- answered from the file at the path of its manifest, under the media type that the file names, or
  -- with the status 500 and the message of the error if it names none; where there is no such file,
  -- the image is built, and the request is answered with the status 500 and the message of the build's
  -- error, or else from the file that is there behind the build, or with the status 404 and "Unknown
  -- name" if there is still none.
  pub local_manifests_lem :
      (services : Services R) (cache : Cache) (is_head : Bool) (image tag : Bytes) (action : Action)
      (w : World R)
      → w.disk.faults ≡ []
      → (build services cache action w).1.disk.faults ≡ []
      → (local_manifests decoders services cache [] is_head image tag action w).0
        ≡ ok (
            built_answer decoders
              (lookup (local_manifest_path cache.manifest_path image tag) w.disk.files)
              (build services cache action w).0
              (lookup
                (local_manifest_path cache.manifest_path image tag)
                (build services cache action w).1.disk.files))
  unfolding local_manifests
  local_manifests_lem services cache is_head image tag action w h h' =
      let p = local_manifest_path cache.manifest_path image tag in
      let next = attempt (built_unless decoders services cache [] is_head p action) in
      elim (Option-cases (lookup p w.disk.files)) [
        | inl e ↦
            ap (λ r. (next r).0)
              (read_missing decoders p w h e
                ∙ ap (λ (w : World R). (err not_exist, w)) (no_faults decoders w h))
            ∙ built_unless_answer services cache is_head p action w (build services cache action w)
                refl h'
            ∙ rw e refl
        | inr (s, e) ↦
            ap (λ r. (next r).0) (read_found decoders p s w h e)
            ∙ serve_manifest_kept p s (record w { disk = record w.disk { faults = [] } }) refl e
            ∙ rw e refl
      ]
