-- ===== src/Handler/Rules/Registries.antt =====
-- pkg/handler/handler.go: the registries in force, and what is left of them after a callback.
use jitdi.Base.{
  ◌≡◌, refl, ◌∙◌, ap, Option, none, some, List, [], ◌∷◌, arith, Bytes, bytes_eq, lookup, insert,
  lookup-insert, if◌then◌else◌,
}
use jitdi.Config.{BaseAuth, Registry, RegistrySpec}
use jitdi.Handler.Rules.{
  Handler, Registries, add_registries, reset_registry_cr, get_registry_rules, get_authn, basic_of,
}

-- The spec of the last resource of that name, or what was there.
abbrev pub latest : Bytes → List Registry → Option RegistrySpec → Option RegistrySpec
latest k [] o = o
latest k (c ∷ registries) o = latest k registries (if bytes_eq c.name k then some c.spec else o)

-- The credentials that a registry's spec names: a user's name and password, if there are any.
abbrev pub declared_auth : Option RegistrySpec → Option BaseAuth
declared_auth none = none
declared_auth (some spec) = elim spec.authentication [ none ↦ none | some a ↦ a.base_auth ]

pub basic_of-declared_auth : (o : Option RegistrySpec) → basic_of o ≡ declared_auth o
unfolding basic_of
basic_of-declared_auth none = refl
basic_of-declared_auth (some spec) = refl

pub lookup-add_registries :
    (k : Bytes) (registries : List Registry) (m : Registries)
    → lookup k (add_registries m registries) ≡ latest k registries (lookup k m)
unfolding add_registries
lookup-add_registries k [] m = refl
lookup-add_registries k (c ∷ registries) m =
    lookup-add_registries k registries (insert c.name c.spec m)
    ∙ ap (latest k registries) (lookup-insert c.name k c.spec m)

-- With the informer's store there and nothing cached, the credentials for a host are those of the
-- last resource of that name, or else those configured.
get_authn_lem :
    (h : Handler) (items : List Registry) (host : Bytes)
    → h.registry_store ≡ some items
    → h.registry_cr ≡ none
    → (get_authn h host).1 ≡ basic_of (latest host items (lookup host h.registry_rules))
unfolding get_authn get_registry_rules
get_authn_lem h items host p q = ground (arith, lookup-add_registries host items h.registry_rules)

-- A callback of the registries' informer drops the informer's store instead of the cache: from then
-- on, whatever was cached or stored, a host has the credentials that were configured, and no resource
-- counts.
get_authn-reset_registry_cr :
    (h : Handler) (host : Bytes)
    → (get_authn (reset_registry_cr h) host).1 ≡ basic_of (lookup host h.registry_rules)
unfolding get_authn get_registry_rules reset_registry_cr
get_authn-reset_registry_cr h host = refl
