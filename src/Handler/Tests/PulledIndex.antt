-- ===== src/Handler/Tests/PulledIndex.antt =====
-- pkg/handler: a client that pulls an image of several platforms that is built for it.
use jitdi.Base.{◌≡◌, ◌++◌, refl, false, true, none, some, inl, inr, Option, [], ◌∷◌, codes, arith}
use jitdi.Exec.{Result, ok, err, failed}
use jitdi.Config.{Platform}
use jitdi.Container.{Reference, Descriptor, ImageIndex, Described, RemotePuller, context}
use jitdi.Pattern.Parse.{literal}
use jitdi.Pattern.Rule.{Rule, Action, get_mutates, get_platforms}
use jitdi.Builder.Index.{Index, append_image, clear_image, new_image_index}
use jitdi.Storage.Paths.{IsHex}
use jitdi.Storage.Pusher.{local_push_image_with_index}
use jitdi.Storage.Tests.{sum, image, image-IsSoundImage, hash_of, identity-IsAddressed}
use jitdi.Handler.Rules.{empty_handler, get_image_rules}
use jitdi.Handler.Select.{find_action}
use jitdi.Handler.Select.Insertion.{insertion}
use jitdi.Handler.Reply.{Reply}
use jitdi.Handler.Route.Laws.{resource_path}
use jitdi.Handler.Mutates.{mutate_image}
use jitdi.Handler.Build.{Services, is_wanted}
use jitdi.Handler.Build.Complete.{New, PlatformMade, Makes, make, skip, done}
use jitdi.Handler.Build.Indexed.{IndexMade}
use jitdi.Handler.Build.Platforms.{wanted}
use jitdi.Handler.Serve.Reads.{serve}
use jitdi.Handler.Tests.Images.{W, services, cache, world}
use jitdi.Handler.Tests.Pulled.{parsed}
use jitdi.Handler.Tests.Cached.{decoders}

abbrev arm : Platform
arm = record { architecture = codes "arm64"; os = codes "linux"; variant = [] }

abbrev amd : Platform
amd = record arm { architecture = codes "amd64" }

abbrev listed : Option Platform → Descriptor
listed p = record { digest = hash_of (codes "{}"); size = 2; media_type = codes "m"; platform = p }

abbrev base : ImageIndex
base = record {
  manifests = ok (listed (some arm) ∷ listed none ∷ listed (some amd) ∷ []);
  raw_manifest = ok (codes "i");
  image = λ digest. ok image;
}

abbrev described : Described
described = record {
  media_type = codes "m";
  size = 2;
  platform = none;
  is_index = true;
  manifest = ok (codes "i");
  image_index = ok base;
  image = err (failed 3);
}

-- The reference that the new index is saved under.
abbrev reference : Reference
reference = parsed (codes "library/nginx:v1")

abbrev puller : RemotePuller W
puller = record { layer = λ ref w. (err (failed 4), w); get = λ ref w. (ok described, w) }

abbrev ready : Services (Unit {0})
ready = record services {
  remote_puller = λ auth. ok puller;
  parse_reference = λ s. ok (parsed s);
  sum_sha256 = sum;
}

abbrev rule : Rule
rule = record {
  match = literal (codes "library/nginx:v1") ∷ [];
  base_image = codes "base";
  mutates = [];
  platforms = amd ∷ [];
}

abbrev action : Action
action = record { params = []; match = codes "library/nginx:v1"; rule = rule }

abbrev start : W
start = record world { handler = record empty_handler { image_rules = rule ∷ [] } }

abbrev end : W
end = record start {
  disk =
      (local_push_image_with_index sum (codes "b") (codes "m") (context reference) image
        start.disk).1;
}

chosen :
    find_action
      (get_image_rules insertion start.handler).1
      (codes "library/nginx" ++ (codes ":" ++ codes "v1"))
    ≡ some action
unfolding find_action get_image_rules
chosen = refl

abbrev cleared : Index
cleared = record { base_image_index = base; image_index = record base { manifests = ok [] } }

abbrev new_index : Index
new_index = record cleared { image_index = record base { manifests = ok (listed (some amd) ∷ []) } }

manifest_IsHex : IsHex (codes "{}")
manifest_IsHex = (λ e. cc, omega arith, omega arith)

abbrev made :
    PlatformMade ready cache reference
      (get_platforms action)
      (listed (some amd))
      action
      cleared
      start
unfolding get_mutates mutate_image append_image is_wanted get_platforms
made = record {
  platform = amd;
  image = image;
  new = image;
  sound = image-IsSoundImage;
  w1 = start;
  index' = new_index;
  of_platform = refl;
  wanted = refl;
  got = refl;
  mutated = refl;
  good = record { calm = refl; addressed = identity-IsAddressed };
  grows = λ p s e. (s, e);
  hex = manifest_IsHex;
  hash = hash_of (codes "{}");
  read_hash = refl;
  hashed = refl;
  appended = refl;
}

abbrev new : New ready cache reference (get_platforms action)
new = record {
  image = image;
  sound = image-IsSoundImage;
  hex = manifest_IsHex;
  hash = hash_of (codes "{}");
  hashed = refl;
}

not_arm : is_wanted (get_platforms action) arm ≡ false
unfolding is_wanted get_platforms
not_arm = refl

makes :
    Makes ready cache reference
      (get_platforms action)
      (listed (some arm) ∷ listed none ∷ listed (some amd) ∷ [])
      action
      cleared
      start
      (new ∷ [])
      ((get_mutates action (some amd)).0, new_index)
      end
unfolding made
makes = skip (inr (arm, refl, not_arm)) (skip (inl refl) (make made done))

index_IsHex : IsHex (codes "i")
index_IsHex = (λ e. cc, omega arith, omega arith)

abbrev index_made :
    IndexMade ready cache reference
      (get_platforms action)
      described
      action
      start
      (new ∷ [])
      (codes "i")
      end
unfolding clear_image new_image_index
index_made = record {
  base = base;
  manifests = listed (some arm) ∷ listed none ∷ listed (some amd) ∷ [];
  result = ((get_mutates action (some amd)).0, new_index);
  base_of = refl;
  manifests_of = refl;
  makes = makes;
  manifest_of = refl;
  hex = index_IsHex;
}

abbrev pulled : Result Reply × W
pulled =
    serve decoders ready cache insertion (codes "GET")
      (resource_path (codes "library/nginx") (codes "manifests") (codes "v1")) start
