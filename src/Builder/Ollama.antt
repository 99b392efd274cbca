-- ===== src/Builder/Ollama.antt =====
-- pkg/builder/ollama/ollama.go: the files of a model, which a registry holds as an image.
pub mod Archive
use jitdi.Base.{
  ℕ, ◌≡◌, refl, Bool, Option, none, List, [], ◌∷◌, ◌++◌, Bytes, codes, length, is_empty, path_join,
  if◌then◌else◌, ◌==◌,
}
use jitdi.Exec.{Result, ok, err, nothing}
use jitdi.Exec.Pure.{◌>>=◌}
use jitdi.Container.{Hash, hash_string}
use jitdi.Builder.Tar.{Reader, File}

-- What is asked of a `v1.Layer` and of a `v1.Image`.
pub record Layer : Type 0 where
  pub digest : Result Hash
  pub uncompressed : Result Reader
  pub size : Result ℕ

pub record Model : Type 0 where
  pub layers : Result (List Layer)
  pub raw_manifest : Result Bytes
  pub raw_config_file : Result Bytes

-- `io.NopCloser(bytes.NewBuffer(blob))`
abbrev pub buffer : Bytes → Reader
buffer blob = record { contents = blob; failure = none; close = ok nothing }

-- `strings.Replace(s, ":", "/", 1)`
unfoldable pub replace_colon : Bytes → Bytes
replace_colon [] = []
replace_colon (c ∷ s) = if c == b':' then b'/' ∷ s else c ∷ replace_colon s

abbrev pub manifest_path : Bytes → Bytes → Bytes → Bytes
manifest_path model_path work_dir model_name = path_join (
    work_dir
    ∷ codes "manifests"
    ∷ replace_colon (if is_empty model_name then model_path else model_name)
    ∷ [])

-- The path of the file of a blob.
abbrev pub blob_path : Bytes → Bytes → Bytes
blob_path work_dir digest = path_join (work_dir ∷ codes "blobs" ∷ digest ∷ [])

-- `OpenReader` of a layer: the bytes that it has without its compression, and the size of the layer.
unfoldable pub open_layer : Layer → Result (Reader × ℕ)
open_layer layer = do l ← layer.uncompressed; size ← layer.size; ok (l, size)

-- The mode of the struct `Ollama`.
module _ (mode : ℕ) where
  -- The file of a blob that is at hand.
  abbrev pub blob_file : Bytes → Bytes → File
  blob_file new_path blob = record {
    path = new_path;
    mode = mode;
    open_reader = ok (buffer blob, length blob);
  }

  unfoldable pub tar_manifest : Model → Bytes → Bytes → Bytes → Result File
  unfolding path_join replace_colon
  tar_manifest image model_path work_dir model_name = do
    blob ← image.raw_manifest
    ok (blob_file (manifest_path model_path work_dir model_name) blob)

  unfoldable pub tar_config : (Bytes → Bytes) → Model → Bytes → Result File
  unfolding path_join
  tar_config sum_sha256 image work_dir = do
    blob ← image.raw_config_file
    ok (blob_file (blob_path work_dir (codes "sha256:" ++ sum_sha256 blob)) blob)

  unfoldable pub tar_layer : Layer → Bytes → Result File
  unfolding path_join open_layer
  tar_layer layer work_dir = do
    digest ← layer.digest
    ok (record {
      path = blob_path work_dir (hash_string digest);
      mode = mode;
      open_reader = open_layer layer;
    })

  -- The loop over the layers.
  unfoldable pub tar_layers : List Layer → Bytes → Result (List File)
  unfolding tar_layer
  tar_layers [] work_dir = ok []
  tar_layers (layer ∷ layers) work_dir = do
    a ← tar_layer layer work_dir
    addendums ← tar_layers layers work_dir
    ok (a ∷ addendums)

  unfoldable pub tar_model : (Bytes → Bytes) → Model → Bytes → Bytes → Bytes → Result (List File)
  unfolding tar_manifest tar_config tar_layers
  tar_model sum_sha256 image model_path work_dir model_name = do
    layers ← image.layers
    manifest ← tar_manifest image model_path work_dir model_name
    config ← tar_config sum_sha256 image work_dir
    addendums ← tar_layers layers work_dir
    ok (manifest ∷ config ∷ addendums)

  -- `get` is `name.ParseReference`, `remote.Get` and `Image` of what it returns.
  unfoldable pub build :
      (Bytes → Bytes) → (Bytes → Result Model) → Bytes → Bytes → Bytes → Result (List File)
  unfolding tar_model
  build sum_sha256 get model_path work_dir model_name = do
    img ← get model_path
    tar_model sum_sha256 img model_path work_dir model_name
