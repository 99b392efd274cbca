-- ===== src/Handler/Mutates.antt =====
-- pkg/handler/mutates.go: the mutations of an image, each as new layers.
pub mod Laws
pub mod Directory
use jitdi.Base.{
  ℕ, Bool, true, false, Option, none, some, List, [], ◌∷◌, ◌++◌, Bytes, codes, is_empty, join,
  path_join, if◌then◌else◌,
}
use jitdi.Exec.Pure
use jitdi.Exec.{Exec, Result, ok, err, unknown_mutate, ◌>>=◌, ◌>>◌, pure, raise, lift}
use jitdi.Config.{Mutate, File, Ollama}
use jitdi.Container
use jitdi.Container.{Layer}
use jitdi.Builder.Tar
use jitdi.Builder.Image
use jitdi.Builder.Image.{
  LayerOps, new_image, append_file_as_new_layer, append_file_as_new_layer_with_link,
}

-- What the mutations ask of other components: `files.NewFiles(mode, …).Build(source, destination)`,
-- `ollama.NewOllama(mode, …).Build(model, workDir, modelName)`, `strconv.ParseInt(mode, 0, 0)`,
-- `NewCacheFileLayer` and the SHA-256 sum in hexadecimal digits.
pub record Sources (S : Type 0) : Type 0 where
  pub build_files : ℕ → Bytes → Bytes → Exec S (List Tar.File)
  pub build_ollama : ℕ → Bytes → Bytes → Bytes → Exec S (List Tar.File)
  pub parse_int : Bytes → Result ℕ
  pub cache_layer : Bytes → Layer → Layer
  pub sum_sha256 : Bytes → Bytes

-- 0644
abbrev pub default_mode : ℕ
default_mode = 420

module _ {S : Type 0} (ops : LayerOps) (sources : Sources S) where
  open sources use {build_files, build_ollama, parse_int, cache_layer, sum_sha256}

  unfoldable pub sum_file_info : Bytes → Bytes → File → Bytes
  unfolding path_join join
  sum_file_info link_path mount f = path_join (
      link_path
      ∷ mount
      ∷ sum_sha256 (join (0 ∷ []) (f.source ∷ f.destination ∷ f.mode ∷ []))
      ∷ codes "link"
      ∷ [])

  unfoldable pub sum_ollama_layer_info : Bytes → Bytes → Ollama → Bytes
  unfolding path_join join
  sum_ollama_layer_info link_path mount o = path_join (
      link_path
      ∷ mount
      ∷ sum_sha256 (join (0 ∷ []) (o.model ∷ o.work_dir ∷ []))
      ∷ codes "link"
      ∷ [])

  -- The layer of one file; `link` is the path of its link.
  unfoldable pub append_one : Bytes → Bytes → Tar.File → Image.Image → Result Image.Image
  unfolding append_file_as_new_layer append_file_as_new_layer_with_link
  append_one link_path link v img =
      if is_empty link_path
      then append_file_as_new_layer ops v img
      else append_file_as_new_layer_with_link ops cache_layer v link img

  -- The loop over the files that were built.
  unfoldable pub append_files :
      Bytes → (Tar.File → Bytes) → List Tar.File → Image.Image → Result Image.Image
  unfolding append_one
  append_files link_path link [] img = ok img
  append_files link_path link (v ∷ fs) img =
      Pure.◌>>=◌ (append_one link_path (link v) v img) (append_files link_path link fs)

  -- From `builder.NewImage` on.
  unfoldable pub append_all :
      Container.Image → Bytes → (Tar.File → Bytes) → List Tar.File → Result Container.Image
  unfolding new_image append_files
  append_all image link_path link fs =
      Pure.◌>>=◌ (new_image image)
        λ img. Pure.◌>>=◌ (append_files link_path link fs img) λ img'. ok img'.image

  -- `0644`, or the mode that is written.
  unfoldable pub file_mode : Bytes → Result ℕ
  file_mode mode = if is_empty mode then ok default_mode else parse_int mode

  unfoldable pub mutate_image_with_file : Container.Image → File → Bytes → Exec S Container.Image
  unfolding file_mode append_all sum_file_info
  mutate_image_with_file image f link_path = do
    mode ← lift (file_mode f.mode)
    fs ← build_files mode f.source f.destination
    lift (append_all image link_path (λ v. sum_file_info link_path v.path f) fs)

  unfoldable pub mutate_image_with_ollama :
      Container.Image → Ollama → Bytes → Exec S Container.Image
  unfolding append_all sum_ollama_layer_info
  mutate_image_with_ollama image o link_path = do
    fs ← build_ollama default_mode o.model o.work_dir o.model_name
    lift (append_all image link_path (λ v. sum_ollama_layer_info link_path v.path o) fs)

  -- The `switch`.
  unfoldable pub mutate_one : Container.Image → Mutate → Bytes → Exec S Container.Image
  unfolding mutate_image_with_file mutate_image_with_ollama
  mutate_one image m link_path = elim m.file [
    | some f ↦ mutate_image_with_file image f link_path
    | none ↦ elim m.ollama [
      | some o ↦ mutate_image_with_ollama image o link_path
      | none ↦ raise unknown_mutate
    ]
  ]

  unfoldable pub mutate_image : Container.Image → List Mutate → Bytes → Exec S Container.Image
  unfolding mutate_one
  mutate_image image [] link_path = pure image
  mutate_image image (m ∷ mutates) link_path =
      mutate_one image m link_path >>= λ image'. mutate_image image' mutates link_path
