-- ===== src/Program.antt =====
-- cmd/jitdi/main.go: the configuration files, and the handler that the program serves with.
mod Document
pub mod Declared
mod Start
mod Tests
use jitdi.Base.{
  ◌≡◌, refl, Bool, true, false, Option, none, some, List, [], ◌∷◌, ◌++◌, Bytes, codes, bytes_eq,
  is_empty, if◌then◌else◌,
}
use jitdi.Exec.{Result, ok, err, unexpected_version, unexpected_kind}
use jitdi.Exec.Pure.{◌>>=◌}
use jitdi.Config.{Image, Registry}
use jitdi.Handler.Rules.{
  Handler, empty_handler, new_handler, with_storage_registry, with_image_config,
  with_registry_config,
}
use jitdi.Handler.Build.{Cache, with_cache}
use jitdi.Handler.Select.Sorting.{Sorter}

-- `metav1.TypeMeta`
pub record TypeMeta : Type 0 where
  pub api_version : Bytes
  pub kind : Bytes

-- What `loadConfig` asks of other packages: the results of `Decode`, one after the other, before the
-- one that says the end, and `json.Unmarshal` into the three types.
pub record Decoders : Type 0 where
  pub documents : Bytes → List (Result Bytes)
  pub type_meta : Bytes → Result TypeMeta
  pub image : Bytes → Result Image
  pub registry : Bytes → Result Registry

-- `v1alpha1.GroupVersion.String()`
abbrev pub group_version : Bytes
group_version = codes "jitdi.zsm.io/v1alpha1"

abbrev pub image_kind : Bytes
image_kind = codes "Image"

abbrev pub registry_kind : Bytes
registry_kind = codes "Registry"

-- The images and registries read so far.
abbrev pub Loaded : Type 0
Loaded = List Image × List Registry

module _ (decoders : Decoders) where
  open decoders use {documents, type_meta, image, registry}

  -- The `switch` on the kind.
  load_kind : Bytes → Bytes → Loaded → Result Loaded
  unfolding bytes_eq
  load_kind raw kind loaded =
      if bytes_eq kind image_kind
      then (do img ← image raw; ok (loaded.0 ++ img ∷ [], loaded.1))
      else if bytes_eq kind registry_kind
      then (do r ← registry raw; ok (loaded.0, loaded.1 ++ r ∷ []))
      else err unexpected_kind

  load_checked : Bytes → TypeMeta → Loaded → Result Loaded
  unfolding bytes_eq load_kind
  load_checked raw meta loaded =
      if bytes_eq meta.api_version group_version
      then load_kind raw meta.kind loaded
      else err unexpected_version

  -- One turn of the loop, behind the error of `Decode`.
  unfoldable pub load_document : Bytes → Loaded → Result Loaded
  unfolding load_checked
  load_document raw loaded =
      if is_empty raw then ok loaded else (do meta ← type_meta raw; load_checked raw meta loaded)

  load_documents : List (Result Bytes) → Loaded → Result Loaded
  unfolding load_document
  load_documents [] loaded = ok loaded
  load_documents (d ∷ ds) loaded = do
    raw ← d
    loaded' ← load_document raw loaded
    load_documents ds loaded'

  unfoldable pub load_config : Bytes → Result Loaded
  unfolding load_documents
  load_config contents = load_documents (documents contents) ([], [])

  -- The loop over the paths; `open_file` is `os.Open`, with what the file then yields.
  load_files : (Bytes → Result Bytes) → List Bytes → Loaded → Result Loaded
  unfolding load_config
  load_files open_file [] loaded = ok loaded
  load_files open_file (p ∷ paths) loaded = do
    file ← open_file p
    read ← load_config file
    load_files open_file paths (loaded.0 ++ read.0, loaded.1 ++ read.1)

  unfoldable pub load_config_file : (Bytes → Result Bytes) → List Bytes → Result Loaded
  unfolding load_files
  load_config_file open_file paths = load_files open_file paths ([], [])

-- `clientcmd.BuildConfigFromFlags`, `rest.InClusterConfig` and `versioned.NewForConfig`.
pub record Kube (Conf Client : Type 0) : Type 0 where
  pub build_config_from_flags : Bytes → Bytes → Result Conf
  pub in_cluster_config : Result Conf
  pub new_for_config : Conf → Result Client

-- A value, or none where there is an error, which is logged.
logged : {A : Type 0} → Result A → Option A
logged (ok a) = some a
logged (err e) = none

-- The client of a cluster, if there is one. An error ends the program only where a file was given.
unfoldable pub connect :
    {Conf Client : Type 0} → Kube Conf Client → Bytes → Bytes → Result (Option Client)
unfolding logged
connect kube master kubeconfig =
    if is_empty kubeconfig
    then ok (logged (kube.in_cluster_config >>= kube.new_for_config))
    else (do
      client_config ← kube.build_config_from_flags master kubeconfig
      clientset ← kube.new_for_config client_config
      ok (some clientset))

-- The variables that the command's flags set.
pub record Flags : Type 0 where
  pub cache : Bytes
  pub storage_registry : Bytes
  pub config : List Bytes
  pub kubeconfig : Bytes
  pub master : Bytes

-- The handler, of the storage registry that is set and the configuration that was loaded.
unfoldable pub configured : Sorter → Bytes → Loaded → Handler
unfolding new_handler with_storage_registry with_image_config with_registry_config
configured sorter storage_registry static =
    new_handler
      (with_storage_registry storage_registry
        ∷ with_image_config sorter static.0
        ∷ with_registry_config static.1
        ∷ [])
      empty_handler

-- `main`, up to the server: the handler, the directories of its cache and the client, or an exit with
-- an error.
unfoldable pub start :
    {Conf Client : Type 0}
    → Decoders
    → (Bytes → Result Bytes)
    → Kube Conf Client
    → Sorter
    → Flags
    → Result (Handler × Cache × Option Client)
unfolding load_config_file connect configured with_cache
start decoders open_file kube sorter flags = do
  static ← load_config_file decoders open_file flags.config
  clientset ← connect kube flags.master flags.kubeconfig
  ok (configured sorter flags.storage_registry static, with_cache flags.cache, clientset)
