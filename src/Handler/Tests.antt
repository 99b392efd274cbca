-- ===== src/Handler/Tests.antt =====
-- pkg/handler: runs of the definitions and instances of the theorems, about rules, requests and locks.
mod Images
mod Cached
mod Directory
mod Pulled
mod PulledIndex
mod Forwarded
mod Clients
use jitdi.Base.{
  ℕ, zero, suc, Option, ◌≡◌, ◌≢◌, ◌↔◌, ◌⊎◌, inl, inr, refl, Bool, true, false, none, some, List, [],
  ◌∷◌, ◌++◌, Bytes, codes, lookup, arith, All, if◌then◌else◌, ◌==◌,
}
use jitdi.Config.{Image, ImageSpec, Registry, RegistrySpec, Authentication, BaseAuth}
use jitdi.Pattern.Parse.{literal, wildcard}
use jitdi.Pattern.Rule.{Rule, Action, match_rule, less_than}
use jitdi.Handler.Select.{find_action, IsFirstMatch}
use jitdi.Handler.Select.Sorting.{Sorter, Alternates}
use jitdi.Handler.Select.Insertion.{insertion, insertion_sort}
use jitdi.Handler.Select.Choice.{find_action-sort}
use jitdi.Handler.Rules.{
  Handler, empty_handler, get_image_rules, get_authn, reset_image_cr, reset_registry_cr, basic_of,
  rules_of,
}
use jitdi.Handler.Rules.Freshness
use jitdi.Handler.Rules.Freshness.{Watched, get_image_rules_fresh, current_rules}
use jitdi.Handler.Rules.Registries.{latest}
use jitdi.Handler.Route.{route, blobs, manifests}
use jitdi.Handler.Route.Laws.{resource_path, route-resource_path}
use jitdi.Handler.BuildLock.{
  Phase, idle, called, stored, building, waiting, reading, returned, Builds, update, enter, Step,
  call, load_or_store_mutex, lock, r_lock, r_unlock, Reach, here, next, IsInitial,
}
use jitdi.Handler.BuildLock.Exclusion.{build_exclusive}
use jitdi.Handler.BuildLock.Refinement.{
  Owners, OwnerReach, no_owners, Represents, build_mutex_refines,
}
use jitdi.Handler.BuildLock.Waiters.{waiter_may_return_early}

abbrev any_tag : Rule
any_tag = record {
  match = literal (codes "nginx:") ∷ wildcard (codes "tag") ∷ [];
  base_image = codes "nginx";
  mutates = [];
  platforms = [];
}

abbrev one_tag : Rule
one_tag = record any_tag { match = literal (codes "nginx:v1") ∷ [] }

abbrev one_tag_action : Action
one_tag_action = record { params = []; match = codes "nginx:v1"; rule = one_tag }

-- The rule with fewer parameters is tried first.
finds_one_tag :
    find_action (insertion_sort (any_tag ∷ one_tag ∷ [])) (codes "nginx:v1") ≡ some one_tag_action
unfolding find_action insertion_sort less_than
finds_one_tag = refl

find_action-sort_example :
    (r : Rule) × IsFirstMatch (any_tag ∷ one_tag ∷ []) (codes "nginx:v1") r one_tag_action
find_action-sort_example =
    find_action-sort insertion (any_tag ∷ one_tag ∷ []) (codes "nginx:v1") one_tag_action
      ((refl, (refl, tt)), ((refl, tt), tt)) finds_one_tag

route-resource_path_example :
    (route (codes "GET") (resource_path (codes "library/nginx") (codes "manifests") (codes "v1"))
      ≡ manifests (codes "library/nginx") (codes "v1"))
    × (route (codes "GET") (resource_path (codes "library/nginx") (codes "blobs") (codes "v1"))
        ≡ blobs (codes "library/nginx") (codes "v1"))
route-resource_path_example =
    route-resource_path (codes "GET") (codes "library/nginx") (codes "v1") (inl refl) (omega arith)

abbrev nginx_image : Image
nginx_image = record {
  name = codes "nginx";
  spec = record {
    match = codes "nginx:{tag}";
    base_image = codes "nginx";
    mutates = [];
    platforms = [];
  };
}

abbrev watched_start : Watched
watched_start = record { handler = empty_handler; seen = none; pending = 0 }

abbrev watched_changed : Watched
watched_changed = record {
  handler = record empty_handler { image_store = some (nginx_image ∷ []) };
  seen = some (nginx_image ∷ []);
  pending = 1;
}

abbrev watched_called : Watched
watched_called = record {
  handler = record empty_handler { image_store = some (nginx_image ∷ []) };
  seen = some (nginx_image ∷ []);
  pending = 0;
}

Reach-called : Freshness.Reach insertion watched_start watched_called
unfolding reset_image_cr
Reach-called =
    Freshness.next (Freshness.next Freshness.here (Freshness.store_changed (nginx_image ∷ [])))
      (Freshness.callback refl)

get_image_rules_fresh_example :
    (get_image_rules insertion watched_called.handler).1
    ≡ current_rules insertion watched_called.handler (nginx_image ∷ [])
get_image_rules_fresh_example =
    get_image_rules_fresh insertion watched_start watched_called (nginx_image ∷ []) refl refl
      Reach-called refl refl

abbrev hub_spec : RegistrySpec
hub_spec = record {
  endpoint = codes "docker.io";
  insecure = false;
  authentication =
      some (record { base_auth = some (record { username = codes "u"; password = codes "p" }) });
}

abbrev hub_handler : Handler
hub_handler = record empty_handler {
  registry_store = some (record { name = codes "docker.io"; spec = hub_spec } ∷ []);
}

abbrev start_builds : Builds
start_builds = record {
  build_mutex = [];
  next_mutex = 0;
  writer = λ m. false;
  readers = λ m. 0;
  phase = λ t. idle;
}

start_builds-IsInitial : IsInitial start_builds
start_builds-IsInitial = record { all_idle = λ t. refl; no_mutex = refl }

-- One request has stored its mutex, another has called.
abbrev two_called : Builds
two_called = record start_builds {
  build_mutex = (codes "nginx:v1", 0) ∷ [];
  next_mutex = 1;
  phase = λ t. if t == 0 then stored (codes "nginx:v1") 0 else called (codes "nginx:v1");
}

there : lookup (codes "nginx:v1") two_called.build_mutex ≡ some 0
unfolding lookup
there = refl

waiter_may_return_early_example :
    (u : Builds) × Reach two_called u
    × (u.phase 1 ≡ returned true)
    × (u.phase 0 ≡ stored (codes "nginx:v1") 0)
waiter_may_return_early_example =
    waiter_may_return_early two_called 0 1 (codes "nginx:v1") 0 refl refl there refl

-- The first request of all builds.
abbrev one_building : Builds
one_building = record {
  build_mutex = (codes "nginx:v1", 0) ∷ [];
  next_mutex = 1;
  writer = update (λ m. false) 0 true;
  readers = λ m. 0;
  phase =
      update
        (update (update (λ t. idle) 0 (called (codes "nginx:v1"))) 0 (stored (codes "nginx:v1") 0))
        0 (building (codes "nginx:v1") 0);
}

Reach-building : Reach start_builds one_building
unfolding enter
Reach-building =
    next
      (next (next here (call 0 (codes "nginx:v1") refl))
        (load_or_store_mutex 0 (codes "nginx:v1") refl))
      (lock 0 (codes "nginx:v1") 0 refl refl refl)

build_exclusive_example : ◌≡◌ {A = ℕ} 0 0
build_exclusive_example =
    build_exclusive start_builds one_building 0 0 (codes "nginx:v1") 0 0 start_builds-IsInitial
      Reach-building refl refl

build_mutex_refines_example : (b : Owners) × OwnerReach no_owners b × Represents one_building b
build_mutex_refines_example =
    build_mutex_refines start_builds one_building start_builds-IsInitial Reach-building
