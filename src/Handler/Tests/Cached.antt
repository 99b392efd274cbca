-- ===== src/Handler/Tests/Cached.antt =====
-- pkg/handler: instances of the theorems about answers from the cache.
use jitdi.Base.{◌≡◌, refl, true, false, none, some, [], codes, lookup, has_prefix}
use jitdi.Exec.{ok, err, failed}
use jitdi.Storage.Layers.{has_tag, save_manifest}
use jitdi.Storage.Paths.{local_manifest_path}
use jitdi.Handler.Reply.{content, reg_error}
use jitdi.Handler.Build.{build}
use jitdi.Handler.Serve.{Decoders, reply_with, local_manifests}
use jitdi.Handler.Serve.Cached.{local_manifests-save_manifest}
use jitdi.Handler.Serve.Answers.{local_manifests_lem}
use jitdi.Handler.Tests.Images.{W, services, cache, world, an_action}

abbrev pub decoders : Decoders
decoders = record {
  new_digest = λ s. err (failed 2);
  decode_media_type = λ s. ok (codes "m");
  describe = λ e. codes "error";
}

pub tagged : has_tag (codes "nginx") (codes "v1") ≡ true
unfolding has_prefix
tagged = refl

abbrev saved : W
saved = record world {
  disk =
      (save_manifest (λ s. codes "00") (codes "{}") (codes "b") (codes "m") (codes "nginx")
        (codes "v1") world.disk).1;
}

local_manifests-save_manifest_example :
    (local_manifests decoders services cache [] false
      (codes "nginx")
      (codes "v1")
      an_action
      saved).0
    ≡ ok (reply_with (some (codes "m")) none (content (codes "{}")))
local_manifests-save_manifest_example =
    local_manifests-save_manifest decoders services cache false (λ s. codes "00") (codes "{}")
      (codes "nginx") (codes "v1") (codes "m") an_action world refl tagged refl

pub absent :
    lookup (local_manifest_path (codes "m") (codes "nginx") (codes "v1")) world.disk.files ≡ none
unfolding lookup
absent = refl

no_faults_behind : (build services cache an_action world).1.disk.faults ≡ []
unfolding build
no_faults_behind = refl

local_manifests_lem_example :
    (local_manifests decoders services cache [] false
      (codes "nginx")
      (codes "v1")
      an_action
      world).0
    ≡ ok (record {
      content_type = none;
      content_length = none;
      body =
          reg_error (record {
            status = 500;
            code = codes "INTERNAL_SERVER_ERROR";
            message = codes "error";
          });
    })
unfolding build lookup
local_manifests_lem_example =
    local_manifests_lem decoders services cache false (codes "nginx") (codes "v1") an_action world
      refl no_faults_behind
