-- ===== src/Program/Start.antt =====
-- cmd/jitdi/main.go: the configuration that is in force when the server starts.
use jitdi.Base.{
  ◌≡◌, ◌≢◌, ◌↔◌, refl, subst, ap, ◌∙◌, false, Option, some, none, Bytes, codes, All, List, [], ◌∷◌,
  path_join, is_empty,
}
use jitdi.Config.{Image, Registry}
use jitdi.Exec.{Result, ok, err}
use jitdi.Handler.Rules.{
  Handler, rules_of, get_image_rules, get_authn, get_registry_rules, with_registry_config,
  with_image_config, with_storage_registry, basic_of, new_handler,
}
use jitdi.Handler.Rules.Registries.{
  latest, declared_auth, basic_of-declared_auth, lookup-add_registries,
}
use jitdi.Handler.Build.{with_cache}
use jitdi.Handler.Select.{find_action}
use jitdi.Handler.Select.Choice.{find_action-sort_none}
use jitdi.Handler.Select.Sorting.{Sorter}
use jitdi.Pattern.Rule.{Rule, made, refused, new_rule, match_rule}
use jitdi.Pattern.Rule.Declared.{Misses, new_rule-Misses}
use jitdi.Program.{Decoders, Kube, Flags, connect, configured, start}
use jitdi.Program.Declared.{PathsDeclare, load_config_file_iff}

-- What holds of every rule holds of each rule that is made of a declared image.
All-rules_of :
    (P : Rule → Type 0) (is : List Image)
    → All P (rules_of is) ↔ All (λ (c : Image). (r : Rule) → new_rule c.spec ≡ made r → P r) is
unfolding rules_of
All-rules_of P [] = (λ a. a, λ a. a)
All-rules_of P (c ∷ is) =
    let (to, from) = All-rules_of P is in
    elim (new_rule c.spec)
      as (λ m. All P (elim m [ made r ↦ r ∷ rules_of is | refused e ↦ rules_of is ]) ↔ (
        ((r : Rule) → m ≡ made r → P r)
        × All (λ (c : Image). (r : Rule) → new_rule c.spec ≡ made r → P r) is)) [
          | made r ↦ (
            λ a. (λ r' e. subst P (ap (λ m. elim m [ made r ↦ r | refused e ↦ r ]) e) a.0, to a.1),
            λ a. (a.0 r refl, from a.1),
          )
          | refused e ↦ (λ a. (λ r e. cc, to a), λ a. from a.1)
        ]

All-iff :
    {A : Type 0} (P Q : A → Type 0) (as_ : List A) → ((a : A) → P a ↔ Q a) → All P as_ ↔ All Q as_
All-iff P Q [] h = (λ a. a, λ a. a)
All-iff P Q (a ∷ as_) h =
    let (to, from) = All-iff P Q as_ h in
    (λ (p, ps). ((h a).0 p, to ps), λ (q, qs). ((h a).1 q, from qs))

-- No rule of the configuration matches exactly if the pattern of every declared image misses.
rules_of-Misses :
    (is : List Image) (ref : Bytes)
    → All (λ r. match_rule r ref ≡ none) (rules_of is)
      ↔ All (λ (c : Image). Misses c.spec.match ref) is
rules_of-Misses is ref =
    let (to, from) = All-rules_of (λ r. match_rule r ref ≡ none) is in
    let (to', from') =
      All-iff (λ (c : Image). (r : Rule) → new_rule c.spec ≡ made r → match_rule r ref ≡ none)
        (λ (c : Image). Misses c.spec.match ref) is (λ c. new_rule-Misses c.spec ref) in
    (λ a. to' (to a), λ a. from (from' a))

-- The client of the cluster: with a file of credentials, one that is made with them; without, that of
-- the cluster which the program runs in, or none where there is none or no client can be made.
pub data IsClient {Conf Client : Type 0} (kube : Kube Conf Client) (flags : Flags)
    : Option Client → Type 0 where
  by_file :
      {conf : Conf} {client : Client}
      → flags.kubeconfig ≢ []
      → kube.build_config_from_flags flags.master flags.kubeconfig ≡ ok conf
      → kube.new_for_config conf ≡ ok client
      → IsClient kube flags (some client)
  inside :
      {conf : Conf} {client : Client}
      → flags.kubeconfig ≡ []
      → kube.in_cluster_config ≡ ok conf
      → kube.new_for_config conf ≡ ok client
      → IsClient kube flags (some client)
  outside :
      {e : _} → flags.kubeconfig ≡ [] → kube.in_cluster_config ≡ err e → IsClient kube flags none
  no_client :
      {conf : Conf} {e : _}
      → flags.kubeconfig ≡ []
      → kube.in_cluster_config ≡ ok conf
      → kube.new_for_config conf ≡ err e
      → IsClient kube flags none

is_empty-false : (s : Bytes) → s ≢ [] → is_empty s ≡ false
is_empty-false [] h = absurd (h refl)
is_empty-false (c ∷ s) h = refl

connect-IsClient :
    {Conf Client : Type 0} (kube : Kube Conf Client) (flags : Flags) (c : Option Client)
    → IsClient kube flags c
    → connect kube flags.master flags.kubeconfig ≡ ok c
unfolding connect
connect-IsClient kube flags c (by_file given config client) =
    rw (is_empty-false flags.kubeconfig given, config, client) refl
connect-IsClient kube flags c (inside none_given config client) =
    rw (none_given, config, client) refl
connect-IsClient kube flags c (outside none_given config) = rw (none_given, config) refl
connect-IsClient kube flags c (no_client none_given config client) =
    rw (none_given, config, client) refl

-- If the configuration files declare some images and registries and the cluster has a client or can do
-- without one, the program starts with the directories "blobs", "manifests" and "links" below the cache
-- that is set, with that client, and with a handler in which an image has no action exactly if no
-- declared image has a pattern whose well-formed segments read it, and a host has the credentials of the
-- last registry that is declared under its name, if that has any.
pub start_lem :
    {Conf Client : Type 0} (decoders : Decoders) (open_file : Bytes → Result Bytes)
    (kube : Kube Conf Client) (sorter : Sorter) (flags : Flags) (is : List Image)
    (rs : List Registry) (c : Option Client)
    → PathsDeclare decoders open_file flags.config is rs
    → IsClient kube flags c
    → (h : Handler) × (start decoders open_file kube sorter flags
        ≡ ok (
          h,
          record {
            blob_path = path_join (flags.cache ∷ codes "blobs" ∷ []);
            manifest_path = path_join (flags.cache ∷ codes "manifests" ∷ []);
            link_path = path_join (flags.cache ∷ codes "links" ∷ []);
          },
          c,
        ))
      × ((ref : Bytes)
          → (find_action (get_image_rules sorter h).1 ref ≡ none)
            ↔ All (λ (c : Image). Misses c.spec.match ref) is)
      × ((host : Bytes) → (get_authn h host).1 ≡ declared_auth (latest host rs none))
unfolding start configured get_image_rules get_authn get_registry_rules with_registry_config
    with_image_config with_storage_registry new_handler with_cache
start_lem decoders open_file kube sorter flags is rs c declared client = (
  configured sorter flags.storage_registry (is, rs),
  rw
      (
        (load_config_file_iff decoders open_file flags.config is rs).1 declared,
        connect-IsClient kube flags c client,
      )
      refl,
  λ ref.
      let (to, from) = find_action-sort_none sorter (rules_of is) ref in
      let (to', from') = rules_of-Misses is ref in (λ h. to' (to h), λ h. from (from' h)),
  λ host.
      ap basic_of (lookup-add_registries host rs []) ∙ basic_of-declared_auth (latest host rs none),
)
