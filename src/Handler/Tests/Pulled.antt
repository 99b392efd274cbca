-- ===== src/Handler/Tests/Pulled.antt =====
-- pkg/handler: a client that pulls an image that is built for it.
use jitdi.Base.{
  Bytes, ◌∷◌, break_at, bytes_eq, has_prefix, is_empty, if◌then◌else◌, ◌≡◌, ◌++◌, refl, All, false,
  none, some, inl, [], codes, lookup, arith,
}
use jitdi.Exec.{Result, ok, err, failed}
use jitdi.Container.{Reference, Described, RemotePuller}
use jitdi.Pattern.Parse.{literal}
use jitdi.Pattern.Rule.{Rule, Action, get_base_image, get_mutates}
use jitdi.Storage.Paths.{local_manifest_path}
use jitdi.Storage.Layers.Addressed.{IsAddressed}
use jitdi.Storage.Tests.{sum, layer, image, image-IsSoundImage}
use jitdi.Handler.Rules.{empty_handler, get_image_rules}
use jitdi.Handler.Select.{find_action}
use jitdi.Handler.Select.Insertion.{insertion}
use jitdi.Handler.Reply.{Reply, content, reg_error}
use jitdi.Handler.Route.Laws.{resource_path}
use jitdi.Handler.Mutates.{mutate_image}
use jitdi.Handler.Build.{Services, get_puller}
use jitdi.Handler.Serve.Built.{Made}
use jitdi.Handler.Serve.Reads.{serve, ServesLayer, IsServed}
use jitdi.Handler.Serve.Pulled.{serve_http_pull}
use jitdi.Handler.Tests.Images.{W, services, cache, world}
use jitdi.Handler.Tests.Cached.{decoders}

abbrev described : Described
described = record {
  media_type = codes "m";
  size = 2;
  platform = none;
  is_index = false;
  manifest = ok (codes "{}");
  image_index = err (failed 3);
  image = ok image;
}

abbrev puller : RemotePuller W
puller = record { layer = λ ref w. (err (failed 4), w); get = λ ref w. (ok described, w) }

-- `ParseReference` on a name without a host: one without a slash lies in "library", and one without a
-- tag has the tag "latest".
abbrev pub parsed : Bytes → Reference
parsed s = record {
  registry = codes "index.docker.io";
  repository =
      let name = (break_at b':' s).0 in
      if is_empty (break_at b'/' name).1 then codes "library/" ++ name else name;
  identifier = elim (break_at b':' s).1 [ [] ↦ codes "latest" | c ∷ tag ↦ tag ];
}

abbrev ready : Services (Unit {0})
ready = record services {
  remote_puller = λ auth. ok puller;
  parse_reference = λ s. ok (parsed s);
  sum_sha256 = sum;
}

-- A rule for one tag of an image of that name.
abbrev rule : Bytes → Rule
rule name = record {
  match = literal (name ++ codes ":v1") ∷ [];
  base_image = codes "base";
  mutates = [];
  platforms = [];
}

abbrev action : Bytes → Action
action name = record { params = []; match = name ++ codes ":v1"; rule = rule name }

abbrev start : Bytes → W
start name = record world { handler = record empty_handler { image_rules = rule name ∷ [] } }

made :
    (name : Bytes)
    → Made ready cache
        (action name)
        (record (start name) { handler = (get_image_rules insertion (start name).handler).0 })
        image
        (start name)
unfolding get_puller get_base_image get_mutates mutate_image get_image_rules
made name = record {
  source = parsed (codes "base");
  puller = puller;
  desc = described;
  base = image;
  w1 = start name;
  w2 = start name;
  parsed = refl;
  connected = refl;
  got = refl;
  local = refl;
  single = refl;
  base_of = refl;
  mutated = refl;
}

empty-IsAddressed : IsAddressed sum (codes "b") []
unfolding lookup
empty-IsAddressed hex c h e = absurd (ground (arith, e))

pub nothing_stored : (p : Bytes) → lookup p world.disk.files ≡ none
unfolding lookup
nothing_stored p = refl

-- What a client is answered that asks for the tag "v1" of an image.
abbrev pulls : Bytes → Result Reply × W
pulls name =
    serve decoders ready cache insertion (codes "GET")
      (resource_path name (codes "manifests") (codes "v1")) (start name)

serve_http_pull_example :
    ((pulls (codes "library/nginx")).0
      ≡ ok (record {
        content_type = some (codes "m");
        content_length = none;
        body = content (codes "{}");
      }))
    × All
        (ServesLayer decoders ready cache insertion (pulls (codes "library/nginx")).1)
        (layer ∷ [])
    × IsServed decoders ready cache insertion (pulls (codes "library/nginx")).1 (codes "c")
unfolding break_at find_action get_image_rules bytes_eq local_manifest_path has_prefix
serve_http_pull_example =
    serve_http_pull decoders ready cache insertion (codes "GET") (codes "library/nginx")
      (codes "v1") (codes "m") (action (codes "library/nginx")) (start (codes "library/nginx"))
      (start (codes "library/nginx")) image (parsed (codes "library/nginx:v1")) image-IsSoundImage
      (inl refl) (omega arith) refl refl refl (nothing_stored _) refl (made (codes "library/nginx"))
      refl refl refl refl (nothing_stored _) empty-IsAddressed (λ e. cc, omega arith, omega arith)
      refl

-- Under the short name the same image is built, but is stored as "library/nginx" and not found.
short_name :
    (pulls (codes "nginx")).0
    ≡ ok (record {
      content_type = none;
      content_length = none;
      body =
          reg_error
            (record { status = 404; code = codes "NAME_UNKNOWN"; message = codes "Unknown name" });
    })
unfolding break_at find_action get_image_rules bytes_eq local_manifest_path has_prefix
short_name =
    (serve_http_pull decoders ready cache insertion (codes "GET") (codes "nginx") (codes "v1")
      (codes "m") (action (codes "nginx")) (start (codes "nginx")) (start (codes "nginx")) image
      (parsed (codes "nginx:v1")) image-IsSoundImage (inl refl) (omega arith) refl refl refl
      (nothing_stored _) refl (made (codes "nginx")) refl refl refl refl (nothing_stored _)
      empty-IsAddressed (λ e. cc, omega arith, omega arith) refl).0
