-- ===== src/Handler/Tests/Images.antt =====
-- pkg/handler: instances of the theorems about built images.
use jitdi.Base.{
  Option, ◌≡◌, refl, sym, ap, ◌∙◌, Bool, true, false, none, some, List, [], ◌∷◌, ◌++◌, map, Bytes,
  codes,
}
use jitdi.Exec.{Result, ok, err, failed, pure, nothing}
use jitdi.Config.{Platform}
use jitdi.Container.{Hash, Layer, Descriptor, ImageIndex, Reference}
use jitdi.Container
use jitdi.Builder.Tar
use jitdi.Builder.Image.{LayerOps, Addendum}
use jitdi.Builder.Index.{IndexOps, Index}
use jitdi.Pattern.Rule.{Action}
use jitdi.Storage.Pusher.{Pusher}
use jitdi.Handler.Mutates.{Sources, append_all}
use jitdi.Handler.Mutates.Laws.{AddsLayer, layer_of, append_all-layers}
use jitdi.Handler.Rules.{empty_handler}
use jitdi.Handler.Build.{World, Services, Cache}
use jitdi.Handler.Build.Platforms.{EditsManifests}

abbrev pub W : Type 0
W = World (Unit {0})

abbrev pub a_hash : Hash
a_hash = record { algorithm = codes "sha256"; hex = codes "00" }

-- An image of the given layers.
abbrev pub image_of : List Layer → Container.Image
image_of ls = record {
  media_type = ok (codes "m");
  layers = ok ls;
  raw_config_file = ok (codes "{}");
  config_name = ok a_hash;
  manifest_media_type = ok (codes "m");
  raw_manifest = ok (codes "{}");
  digest = ok a_hash;
  size = ok 2;
}

abbrev pub layer_with : Bytes → Layer
layer_with s = record { digest = λ c. ok a_hash; size = λ c. ok 1; compressed = ok s }

abbrev pub added : Addendum → Result (List Layer) → Result (List Layer)
added a (ok ls) = ok (ls ++ a.layer ∷ [])
added a (err e) = err e

abbrev pub layer_ops : LayerOps
layer_ops = record {
  tar_layer = λ file media_type. layer_with file.path;
  append = λ img a. ok (record img { layers = added a img.layers });
}

abbrev layers_of : Result Container.Image → Result (List Layer)
layers_of (ok img) = img.layers
layers_of (err e) = err e

pub layer_ops-AddsLayer : AddsLayer layer_ops
layer_ops-AddsLayer img img' a ls e l = sym (ap layers_of e) ∙ ap (added a) l

abbrev sources : Sources W
sources = record {
  build_files = λ mode source destination. pure [];
  build_ollama = λ mode model work_dir model_name. pure [];
  parse_int = λ s. ok 0;
  cache_layer = λ link layer. layer;
  sum_sha256 = λ s. codes "00";
}

abbrev a_file : Tar.File
a_file = record {
  path = codes "/bin/x";
  mode = 0;
  open_reader = ok (record { contents = codes "x"; failure = none; close = ok nothing }, 1);
}

appended :
    append_all layer_ops sources
      (image_of (layer_with (codes "base") ∷ []))
      []
      (λ v. [])
      (a_file ∷ [])
    ≡ ok (image_of (layer_with (codes "base") ∷ layer_with (codes "/bin/x") ∷ []))
unfolding append_all
appended = refl

append_all-layers_example :
    (image_of (layer_with (codes "base") ∷ layer_with (codes "/bin/x") ∷ [])).layers
    ≡ ok (
        (layer_with (codes "base") ∷ [])
        ++ map (layer_of layer_ops sources (codes "m") [] (λ v. [])) (a_file ∷ []))
append_all-layers_example =
    append_all-layers layer_ops sources (image_of (layer_with (codes "base") ∷ []))
      (image_of (layer_with (codes "base") ∷ layer_with (codes "/bin/x") ∷ [])) [] (λ v. [])
      (a_file ∷ []) (codes "m") (layer_with (codes "base") ∷ []) layer_ops-AddsLayer refl refl
      appended

abbrev appended_descriptor : Descriptor → Result (List Descriptor) → Result (List Descriptor)
appended_descriptor d (ok ds) = ok (ds ++ d ∷ [])
appended_descriptor d (err e) = err e

abbrev removed : (Descriptor → Bool) → List Descriptor → List Descriptor
removed f [] = []
removed f (d ∷ ds) = elim (f d) [ true ↦ removed f ds | false ↦ d ∷ removed f ds ]

abbrev removed_from : (Descriptor → Bool) → Result (List Descriptor) → Result (List Descriptor)
removed_from f (ok ds) = ok (removed f ds)
removed_from f (err e) = err e

abbrev pub index_ops : IndexOps
index_ops = record {
  remove_manifests = λ ix f. record ix { manifests = removed_from f ix.manifests };
  append_manifest = λ ix image d. record ix { manifests = appended_descriptor d ix.manifests };
}

removed_all : (ds : List Descriptor) → removed (λ d. true) ds ≡ []
removed_all [] = refl
removed_all (d ∷ ds) = removed_all ds

pub index_ops-EditsManifests : EditsManifests index_ops
index_ops-EditsManifests = (
  λ ix ds e. ap (removed_from (λ d. true)) e ∙ ap ok (removed_all ds),
  λ ix image d ds e. ap (appended_descriptor d) e,
)

abbrev pub services : Services (Unit {0})
services = record {
  remote_pusher = λ auth. err (failed 0);
  remote_puller = λ auth. err (failed 1);
  parse_reference =
      λ s. ok (record { registry = codes "r"; repository = s; identifier = codes "latest" });
  sum_sha256 = λ s. codes "00";
  layer_ops = layer_ops;
  index_ops = index_ops;
  sources = sources;
}

abbrev pub cache : Cache
cache = record { blob_path = codes "b"; manifest_path = codes "m"; link_path = [] }

abbrev pub world : W
world = record {
  handler = empty_handler;
  disk = record { files = []; temps = λ t. []; next_temp = 0; faults = [] };
  remote = tt;
}

abbrev arm : Platform
arm = record { architecture = codes "arm64"; os = codes "linux"; variant = [] }

abbrev amd : Platform
amd = record arm { architecture = codes "amd64" }

abbrev described : Option Platform → Descriptor
described p = record { digest = a_hash; size = 2; media_type = codes "m"; platform = p }

abbrev base_manifests : List Descriptor
base_manifests = described (some arm) ∷ described none ∷ described (some amd) ∷ []

abbrev base_index : ImageIndex
base_index = record {
  manifests = ok base_manifests;
  raw_manifest = ok (codes "{}");
  image = λ digest. ok (image_of []);
}

abbrev pub an_action : Action
an_action = record {
  params = [];
  match = codes "nginx:v1";
  rule = record { match = []; base_image = codes "nginx"; mutates = []; platforms = amd ∷ [] };
}

abbrev quiet_pusher : Pusher W
quiet_pusher = record {
  push_image = λ ref image. pure nothing;
  push_image_with_index = λ repo image. pure nothing;
  push_image_index = λ ref index. pure nothing;
}

abbrev pub a_reference : Reference
a_reference = record { registry = codes "r"; repository = codes "nginx"; identifier = codes "v1" }

-- The action with the parameters of the last platform, and the index with the one image.
abbrev built : Action × Index
built = (
  record an_action {
    params = (codes "GOOS", codes "linux") ∷ (codes "GOARCH", codes "amd64") ∷ [];
  },
  record {
    base_image_index = base_index;
    image_index = record base_index { manifests = ok (described (some amd) ∷ []) };
  },
)
