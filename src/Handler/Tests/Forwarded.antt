-- ===== src/Handler/Tests/Forwarded.antt =====
-- pkg/handler: a client that pulls an image that is built into a storage registry for it.
use jitdi.Base.{
  length, sym, ap, ◌≡◌, ◌++◌, refl, false, none, some, inl, Option, [], ◌∷◌, Bytes, codes, bytes_eq,
  arith, if◌then◌else◌,
}
use jitdi.Exec.{Result, ok, err, failed, not_exist, pure, nothing}
use jitdi.Container.{Image, Reference, Described, RemotePuller, RemotePusher}
use jitdi.Pattern.Parse.{literal}
use jitdi.Pattern.Rule.{Rule, Action, get_base_image, get_mutates}
use jitdi.Builder.Index.{IndexOps}
use jitdi.Storage.Pusher.{each}
use jitdi.Storage.Tests.{sum, layer, image}
use jitdi.Handler.Rules.{empty_handler, get_image_rules}
use jitdi.Handler.Select.{find_action}
use jitdi.Handler.Select.Insertion.{insertion}
use jitdi.Handler.Route.Laws.{resource_path}
use jitdi.Handler.Mutates.{Sources, mutate_image}
use jitdi.Handler.Build.{World, Services, get_puller, get_pusher}
use jitdi.Handler.Reply.{written}
use jitdi.Handler.Serve.Reads.{serve}
use jitdi.Handler.Serve.Stored.{Registered, Tells}
use jitdi.Handler.Serve.Forwarded.{serve_http_forward}
use jitdi.Handler.Tests.Images.{layer_ops, cache, world}
use jitdi.Handler.Tests.Cached.{decoders, tagged}

-- The registries: that of the base has one image, the storage registry what was pushed there.
abbrev W : Type 0
W = World (Option Image)

abbrev value_or : {A : Type 0} → A → Result A → A
value_or a (ok b) = b
value_or a (err e) = a

abbrev described : Image → Described
described i = record {
  media_type = value_or [] i.media_type;
  size = length (value_or [] i.raw_manifest);
  platform = none;
  is_index = false;
  manifest = i.raw_manifest;
  image_index = err (failed 3);
  image = ok i;
}

abbrev stored : Option Image → Result Described
stored none = err not_exist
stored (some i) = ok (described i)

abbrev puller : RemotePuller W
puller = record {
  layer = λ ref w. (err (failed 4), w);
  get = λ ref w.
      (if bytes_eq ref.repository (codes "base") then ok (described image) else stored w.remote, w);
}

abbrev pusher : RemotePusher W
pusher = record {
  upload = λ repo layer. pure nothing;
  push_image = λ ref i w. (ok nothing, record w { remote = some i });
  push_index = λ ref index. pure nothing;
}

abbrev sources : Sources W
sources = record {
  build_files = λ mode source destination. pure [];
  build_ollama = λ mode model work_dir model_name. pure [];
  parse_int = λ s. ok 0;
  cache_layer = λ link layer. layer;
  sum_sha256 = sum;
}

abbrev index_ops : IndexOps
index_ops = record { remove_manifests = λ ix f. ix; append_manifest = λ ix image d. ix }

abbrev reference : Bytes → Reference
reference s = record { registry = []; repository = s; identifier = codes "v1" }

abbrev ready : Services (Option Image)
ready = record {
  remote_pusher = λ auth. ok pusher;
  remote_puller = λ auth. ok puller;
  parse_reference = λ s. ok (reference s);
  sum_sha256 = sum;
  layer_ops = layer_ops;
  index_ops = index_ops;
  sources = sources;
}

abbrev rule : Rule
rule = record {
  match = literal (codes "nginx:v1") ∷ [];
  base_image = codes "base";
  mutates = [];
  platforms = [];
}

abbrev action : Action
action = record { params = []; match = codes "nginx:v1"; rule = rule }

abbrev start : W
start = record {
  handler = record empty_handler { image_rules = rule ∷ []; storage_registry = codes "r" };
  disk = world.disk;
  remote = none;
}

abbrev end : W
end = record start { remote = some image }

chosen :
    find_action
      (get_image_rules insertion start.handler).1
      (codes "nginx" ++ (codes ":" ++ codes "v1"))
    ≡ some action
unfolding find_action get_image_rules
chosen = refl

connects :
    get_puller ready cache
      (reference (codes "r/nginx:v1"))
      (record start { handler = (get_image_rules insertion start.handler).0 })
    ≡ (ok puller, start)
unfolding get_puller get_image_rules
connects = refl

abbrev registered :
    Registered ready cache b'r' [] action (reference (codes "r/nginx:v1")) start image end
unfolding get_puller get_pusher get_base_image get_mutates mutate_image each bytes_eq
registered = record {
  source = reference (codes "base");
  puller = puller;
  desc = described image;
  base = image;
  pusher = pusher;
  layers = layer ∷ [];
  w1 = start;
  w2 = start;
  w3 = start;
  w4 = start;
  w5 = start;
  parsed = refl;
  connected = refl;
  got = refl;
  stored = refl;
  connected_storage = refl;
  single = refl;
  base_of = refl;
  mutated = refl;
  layers_of = refl;
  uploaded = refl;
  pushed = refl;
}

absent : puller.get (reference (codes "r/nginx:v1")) start ≡ (err not_exist, start)
unfolding bytes_eq
absent = refl

-- What the storage registry says of a reference behind a push of an image.
tells : Tells ready cache b'r' [] puller registered.pusher (reference (codes "r/nginx:v1"))
unfolding bytes_eq registered
tells i w w' manifest media_type pushed m t =
    let kept : w'.remote ≡ some i = sym (ap (λ r. r.1.remote) pushed) in
    (described i, w', rw kept refl, m, ap (value_or []) t, ap (λ r. length (value_or [] r)) m)

serve_http_forward_example :
    serve decoders ready cache insertion
      (codes "GET")
      (resource_path (codes "nginx") (codes "manifests") (codes "v1"))
      start
    ≡ (
      ok (record {
        content_type = some (codes "m");
        content_length = some 2;
        body = written (codes "{}");
      }),
      end,
    )
unfolding bytes_eq
serve_http_forward_example =
    serve_http_forward ready cache b'r' [] decoders insertion (codes "GET") (codes "nginx")
      (codes "v1") (codes "{}") (codes "m") action (reference (codes "r/nginx:v1")) image puller
      not_exist start start start end (inl refl) (omega arith) tagged refl chosen refl connects
      absent registered tells refl refl
