-- ===== src/Program/Tests.antt =====
-- Runs of cmd/jitdi/main.go.
use jitdi.Base.{
  ℕ, ◌≡◌, ◌↔◌, refl, true, none, List, [], ◌∷◌, Bytes, codes, bytes_eq, path_join, if◌then◌else◌,
}
use jitdi.Exec.{ok, err, fault, not_exist}
use jitdi.Config.{Image, Registry}
use jitdi.Handler.Rules.{Handler, get_image_rules, get_authn}
use jitdi.Handler.Rules.Registries.{latest, declared_auth}
use jitdi.Handler.Select.{find_action}
use jitdi.Handler.Select.Insertion.{insertion}
use jitdi.Pattern.Rule.Declared.{Misses}
use jitdi.Program.{
  Decoders, Kube, Flags, group_version, image_kind, registry_kind, load_config_file, start,
}
use jitdi.Program.Document.{an_image, a_registry, nothing_there}
use jitdi.Program.Declared.{PathsDeclare, no_more, a_file, at_end, document, load_config_file_iff}
use jitdi.Program.Start.{outside, start_lem}

abbrev nginx : Image
nginx = record {
  name = codes "nginx";
  spec = record {
    match = codes "nginx:{tag}";
    base_image = codes "nginx";
    mutates = [];
    platforms = [];
  };
}

abbrev local_registry : Registry
local_registry = record {
  name = codes "localhost";
  spec = record { endpoint = codes "localhost"; insecure = true; authentication = none };
}

-- A file of an image and another of an empty document and a registry; the text of a document is its
-- kind.
abbrev decoders : Decoders
decoders = record {
  documents =
      λ s. if bytes_eq s image_kind then ok image_kind ∷ [] else ok [] ∷ ok registry_kind ∷ [];
  type_meta = λ raw. ok (record { api_version = group_version; kind = raw });
  image = λ _. ok nginx;
  registry = λ _. ok local_registry;
}

abbrev paths : List Bytes
paths = image_kind ∷ registry_kind ∷ []

declared : PathsDeclare decoders (λ p. ok p) paths (nginx ∷ []) (local_registry ∷ [])
unfolding bytes_eq
declared = a_file refl (document (an_image nginx (λ e. cc) refl refl) at_end) (
    a_file refl
      (document (nothing_there refl)
        (document (a_registry local_registry (λ e. cc) refl refl) at_end))
      no_more)

load_config_file_iff_example :
    (load_config_file decoders (λ p. ok p) paths ≡ ok (nginx ∷ [], local_registry ∷ []))
    ↔ PathsDeclare decoders (λ p. ok p) paths (nginx ∷ []) (local_registry ∷ [])
load_config_file_iff_example =
    load_config_file_iff decoders (λ p. ok p) paths (nginx ∷ []) (local_registry ∷ [])

-- No file for the cluster, and the program does not run in one.
abbrev no_cluster : Kube ℕ ℕ
no_cluster = record {
  build_config_from_flags = λ _ _. err fault;
  in_cluster_config = err not_exist;
  new_for_config = λ n. ok n;
}

abbrev flags : Flags
flags = record {
  cache = codes "cache";
  storage_registry = [];
  config = paths;
  kubeconfig = [];
  master = [];
}

start_lem_example :
    (h : Handler) × (start decoders (λ p. ok p) no_cluster insertion flags
      ≡ ok (
        h,
        record {
          blob_path = codes "cache/blobs";
          manifest_path = codes "cache/manifests";
          link_path = codes "cache/links";
        },
        none,
      ))
    × ((ref : Bytes)
        → (find_action (get_image_rules insertion h).1 ref ≡ none)
          ↔ (Misses (codes "nginx:{tag}") ref × Unit {0}))
    × ((host : Bytes)
        → (get_authn h host).1 ≡ declared_auth (latest host (local_registry ∷ []) none))
unfolding path_join
start_lem_example =
    start_lem decoders (λ p. ok p) no_cluster insertion flags (nginx ∷ []) (local_registry ∷ [])
      none declared (outside refl refl)
