-- ===== src/Handler/Rules.antt =====
-- pkg/handler/handler.go: the rules and registries in force, from the configuration and from the
-- cluster's resources, with the caches that the informers' callbacks reset.
pub mod Freshness
pub mod Registries
use jitdi.Base.{Option, none, some, List, [], ◌∷◌, ◌++◌, Bytes, lookup, insert, codes}
use jitdi.Config.{Image, Registry, RegistrySpec, BaseAuth}
use jitdi.Pattern.Rule.{Rule, Made, made, refused, new_rule}
use jitdi.Handler.Select.Sorting.{Sorter}

abbrev pub Registries : Type 0
Registries = List (Bytes × RegistrySpec)

-- The fields that a nil may stand in are `Option`s: a cache not filled, an informer's store not there.
pub record Handler : Type 0 where
  pub storage_registry : Bytes
  pub image_rules : List Rule
  pub image_cr : Option (List Rule)
  pub image_store : Option (List Image)
  pub registry_rules : Registries
  pub registry_cr : Option Registries
  pub registry_store : Option (List Registry)

-- A rule for each image whose pattern parses; the others are logged and passed over.
unfoldable pub rules_of : List Image → List Rule
unfolding new_rule
rules_of [] = []
rules_of (c ∷ images) =
    let rest = rules_of images in elim (new_rule c.spec) [ made r ↦ r ∷ rest | refused e ↦ rest ]

-- `m[registry.Name] = &registry.Spec` for each
unfoldable pub add_registries : Registries → List Registry → Registries
unfolding insert
add_registries m [] = m
add_registries m (c ∷ registries) = add_registries (insert c.name c.spec m) registries

unfoldable pub reset_image_cr : Handler → Handler
reset_image_cr h = record h { image_cr = none }

unfoldable pub reset_registry_cr : Handler → Handler
reset_registry_cr h = record h { registry_store = none }

registry_rules_from : Handler → Option (List Registry) → Option Registries → Handler × Registries
registry_rules_from h none cr = (h, h.registry_rules)
registry_rules_from h (some items) (some cr) = (h, cr)
registry_rules_from h (some items) none =
    let cr = add_registries h.registry_rules items in (record h { registry_cr = some cr }, cr)

unfoldable pub get_registry_rules : Handler → Handler × Registries
unfolding registry_rules_from add_registries
get_registry_rules h = registry_rules_from h h.registry_store h.registry_cr

unfoldable pub basic_of : Option RegistrySpec → Option BaseAuth
basic_of none = none
basic_of (some r) = elim r.authentication [ none ↦ none | some a ↦ a.base_auth ]

-- The credentials for a registry's host, if there are any.
unfoldable pub get_authn : Handler → Bytes → Handler × Option BaseAuth
unfolding get_registry_rules basic_of lookup
get_authn h host = let (h', rs) = get_registry_rules h in (h', basic_of (lookup host rs))

module _ (sorter : Sorter) where
  open sorter use {sort}

  unfoldable pub with_image_config : List Image → Handler → Handler
  unfolding rules_of
  with_image_config image_config h = record h { image_rules = sort (rules_of image_config) }

  image_rules_from : Handler → Option (List Image) → Option (List Rule) → Handler × List Rule
  image_rules_from h none cr = (h, h.image_rules)
  image_rules_from h (some items) (some cr) = (h, cr)
  image_rules_from h (some items) none =
      let cr = sort (h.image_rules ++ rules_of items) in (record h { image_cr = some cr }, cr)

  unfoldable pub get_image_rules : Handler → Handler × List Rule
  unfolding image_rules_from rules_of
  get_image_rules h = image_rules_from h h.image_store h.image_cr

unfoldable pub with_registry_config : List Registry → Handler → Handler
unfolding add_registries
with_registry_config registry_config h = record h {
  registry_rules = add_registries [] registry_config;
}

unfoldable pub with_storage_registry : Bytes → Handler → Handler
with_storage_registry storage_registry h = record h { storage_registry = storage_registry }

-- `&Handler{}`
abbrev pub empty_handler : Handler
empty_handler = record {
  storage_registry = [];
  image_rules = [];
  image_cr = none;
  image_store = none;
  registry_rules = [];
  registry_cr = none;
  registry_store = none;
}

-- `NewHandler`: each option in turn.
unfoldable pub new_handler : List (Handler → Handler) → Handler → Handler
new_handler [] h = h
new_handler (opt ∷ opts) h = new_handler opts (opt h)
