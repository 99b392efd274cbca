-- ===== src/Builder/Ollama/Archive.antt =====
-- pkg/builder/ollama/ollama.go: the files of a model, and when their archive is complete.
use jitdi.Base.{
  Lacks, path_join, length, sym, ℕ, ◌≡◌, ◌↔◌, refl, ap, ◌∙◌, none, List, [], ◌∷◌, ◌++◌, Bytes,
  codes, All, map, arith,
}
use jitdi.Exec.{Result, ok, err, nothing}
use jitdi.Exec.Pure
use jitdi.Container.{Hash, hash_string}
use jitdi.Builder.Tar.{Reader, File, Entry, start_tar}
use jitdi.Builder.Tar.Complete.{Opens, IsGood, contents_of, entry_of, start_tar_iff}
use jitdi.Builder.Ollama.{
  Layer, Model, open_layer, tar_layer, tar_layers, tar_manifest, tar_config, tar_model, build,
  manifest_path, blob_path, blob_file, replace_colon,
}

abbrev value_or : {A : Type 0} → A → Result A → A
value_or a (ok b) = b
value_or a (err e) = a

-- A reader that can be read to its end and closed, and the number of its bytes.
abbrev pub AreWhole : Result Reader → Result ℕ → Type 0
AreWhole u size =
    (r : Reader) × (u ≡ ok r)
    × (r.failure ≡ none)
    × (r.close ≡ ok nothing)
    × (size ≡ ok (length r.contents))

-- The layer can be read to its end, and the size that it has in the registry is that of the bytes
-- without its compression.
abbrev pub IsPlain : Layer → Type 0
IsPlain l = AreWhole l.uncompressed l.size

Opens-AreWhole :
    (u : Result Reader) (size : Result ℕ)
    → Opens (Pure.◌>>=◌ u λ r. Pure.◌>>=◌ size λ n. ok (r, n)) ↔ AreWhole u size
Opens-AreWhole (err e) size = (absurd, λ (r', same, whole, closed, n). cc)
Opens-AreWhole (ok r) (err e) = (absurd, λ (r', same, whole, closed, n). cc)
Opens-AreWhole (ok r) (ok n) = (
  λ (whole, closed, size). (r, refl, whole, closed, ap ok (sym size)),
  λ (r', same, whole, closed, size).
      let e : r ≡ r' = ap (value_or r) same in
      let e' : n ≡ length r'.contents = ap (value_or n) size in
      (
        ap (λ r. r.failure) e ∙ whole,
        ap (λ r. r.close) e ∙ closed,
        ap (λ r. length r.contents) e ∙ sym e',
      ),
)

Opens-open_layer : (l : Layer) → Opens (open_layer l) ↔ IsPlain l
unfolding open_layer
Opens-open_layer l = Opens-AreWhole l.uncompressed l.size

-- The name that a model's manifest is put under: the model's own, or its path if it has none.
abbrev pub name_of : Bytes → Bytes → Bytes
name_of model_path [] = model_path
name_of model_path (c ∷ s) = c ∷ s

-- The name with its first colon, if it has one, as a slash.
pub data IsSlashed : Bytes → Bytes → Type 0 where
  first_colon :
      (name tag : Bytes) → Lacks b':' name → IsSlashed (name ++ b':' ∷ tag) (name ++ b'/' ∷ tag)
  no_colon : {name : Bytes} → Lacks b':' name → IsSlashed name name

replace_colon_first :
    (name tag : Bytes) → Lacks b':' name → replace_colon (name ++ b':' ∷ tag) ≡ name ++ b'/' ∷ tag
unfolding replace_colon
replace_colon_first [] tag l = refl
replace_colon_first (c ∷ name) tag l = ground (arith, replace_colon_first name tag l.1)

replace_colon_none : (name : Bytes) → Lacks b':' name → replace_colon name ≡ name
unfolding replace_colon
replace_colon_none [] l = refl
replace_colon_none (c ∷ name) l = ground (arith, replace_colon_none name l.1)

replace_colon-IsSlashed : (s t : Bytes) → IsSlashed s t → replace_colon s ≡ t
replace_colon-IsSlashed s t (first_colon name tag l) = replace_colon_first name tag l
replace_colon-IsSlashed s t (no_colon l) = replace_colon_none s l

manifest_path-IsSlashed :
    (model_path work_dir model_name slashed : Bytes)
    → IsSlashed (name_of model_path model_name) slashed
    → manifest_path model_path work_dir model_name
      ≡ path_join (work_dir ∷ codes "manifests" ∷ slashed ∷ [])
manifest_path-IsSlashed model_path work_dir [] slashed h =
    ap (λ n. path_join (work_dir ∷ codes "manifests" ∷ n ∷ []))
      (replace_colon-IsSlashed model_path slashed h)
manifest_path-IsSlashed model_path work_dir (c ∷ s) slashed h =
    ap (λ n. path_join (work_dir ∷ codes "manifests" ∷ n ∷ []))
      (replace_colon-IsSlashed (c ∷ s) slashed h)

-- The digests of the layers are known.
abbrev pub AreDigests : List Layer → List Hash → Type 0
AreDigests [] [] = Unit
AreDigests [] (h ∷ hs) = ⊥
AreDigests (l ∷ ls) [] = ⊥
AreDigests (l ∷ ls) (h ∷ hs) = (l.digest ≡ ok h) × AreDigests ls hs

abbrev pub layer_contents : Layer → Bytes
layer_contents l = elim l.uncompressed [ ok r ↦ r.contents | err e ↦ [] ]

contents_of-open_layer :
    (mode : ℕ) (p : Bytes) (l : Layer)
    → Opens (open_layer l)
    → contents_of (record { path = p; mode = mode; open_reader = open_layer l }) ≡ layer_contents l
unfolding open_layer
contents_of-open_layer mode p l h = ground arith

module _ (mode : ℕ) (work_dir : Bytes) where
  abbrev layer_file : Layer → Hash → File
  layer_file l h = record {
    path = blob_path work_dir (hash_string h);
    mode = mode;
    open_reader = open_layer l;
  }

  -- The files of the layers, by their digests.
  abbrev AreMade : List Layer → List Hash → Type 0
  AreMade ls hs =
      (fs : List File) × (tar_layers mode ls work_dir ≡ ok fs)
      × (map (λ (f : File). f.path) fs
          ≡ map (λ h. path_join (work_dir ∷ codes "blobs" ∷ hash_string h ∷ [])) hs)
      × (All IsGood fs ↔ All IsPlain ls)
      × (All IsPlain ls → map contents_of fs ≡ map layer_contents ls)

  tar_layer_known :
      (l : Layer) (h : Hash) → l.digest ≡ ok h → tar_layer mode l work_dir ≡ ok (layer_file l h)
  unfolding tar_layer
  tar_layer_known l h e = rw e refl

  tar_layers_known : (ls : List Layer) (hs : List Hash) → AreDigests ls hs → AreMade ls hs
  unfolding tar_layers
  tar_layers_known [] [] d = ([], refl, refl, ((λ _. tt), (λ _. tt)), λ _. refl)
  tar_layers_known [] (h ∷ hs) d = absurd d
  tar_layers_known (l ∷ ls) [] d = absurd d
  tar_layers_known (l ∷ ls) (h ∷ hs) (e, d) =
      let (fs, made, paths, good, contents) = tar_layers_known ls hs d in
      (
        layer_file l h ∷ fs,
        rw (tar_layer_known l h e, made) refl,
        ap (λ (ps : List Bytes). blob_path work_dir (hash_string h) ∷ ps) paths,
        (
          (λ g. ((Opens-open_layer l).0 g.0, good.0 g.1)),
          (λ g. ((Opens-open_layer l).1 g.0, good.1 g.1)),
        ),
        λ g.
            rw
              (
                contents_of-open_layer mode (blob_path work_dir (hash_string h)) l
                    ((Opens-open_layer l).1 g.0),
                contents g.1,
              )
              refl,
      )

-- Where the manifest, the configuration and the layers lie.
abbrev pub model_paths : Bytes → Bytes → Bytes → List Hash → List Bytes
model_paths work_dir slashed sum hs =
    path_join (work_dir ∷ codes "manifests" ∷ slashed ∷ [])
    ∷ path_join (work_dir ∷ codes "blobs" ∷ (codes "sha256:" ++ sum) ∷ [])
    ∷ map (λ h. path_join (work_dir ∷ codes "blobs" ∷ hash_string h ∷ [])) hs

abbrev blob_paths : Bytes → Bytes → List Hash → List Bytes
blob_paths work_dir sum hs =
    path_join (work_dir ∷ codes "blobs" ∷ (codes "sha256:" ++ sum) ∷ [])
    ∷ map (λ h. path_join (work_dir ∷ codes "blobs" ∷ hash_string h ∷ [])) hs

contents-entry_of :
    (fs : List File) → map (λ (e : Entry). e.contents) (map entry_of fs) ≡ map contents_of fs
contents-entry_of [] = refl
contents-entry_of (f ∷ fs) = ap (λ (cs : List Bytes). contents_of f ∷ cs) (contents-entry_of fs)

-- If the manifest, the configuration and the digests of the layers of a model are known, its files are
-- made: the manifest in "manifests" under the model's name, or its path if it has none, with the first
-- colon as a slash, the configuration in "blobs" under its SHA-256 sum and each layer there under its
-- digest, in this order. Their archive has no error exactly if every layer can be read to its end and
-- is, without its compression, as long as its size says, and then it holds these contents.
pub build-AreDigests :
    (mode : ℕ) (sum_sha256 : Bytes → Bytes) (get : Bytes → Result Model)
    (model_path work_dir model_name slashed : Bytes) (img : Model) (m c : Bytes) (ls : List Layer)
    (hs : List Hash)
    → get model_path ≡ ok img
    → img.layers ≡ ok ls
    → img.raw_manifest ≡ ok m
    → img.raw_config_file ≡ ok c
    → AreDigests ls hs
    → IsSlashed (name_of model_path model_name) slashed
    → (fs : List File) × (build mode sum_sha256 get model_path work_dir model_name ≡ ok fs)
      × (map (λ (f : File). f.path) fs ≡ model_paths work_dir slashed (sum_sha256 c) hs)
      × (((start_tar fs).error ≡ none) ↔ All IsPlain ls)
      × (All IsPlain ls
          → map (λ (e : Entry). e.contents) (start_tar fs).entries ≡ m ∷ c ∷ map layer_contents ls)
unfolding build tar_model tar_manifest tar_config
build-AreDigests mode sum_sha256 get model_path work_dir model_name slashed img m c ls hs got eq_ls
      eq_m eq_c d name =
    let (fs, made, paths, good, contents) = tar_layers_known mode work_dir ls hs d in
    let whole =
      blob_file mode (manifest_path model_path work_dir model_name) m
      ∷ blob_file mode (blob_path work_dir (codes "sha256:" ++ sum_sha256 c)) c
      ∷ fs in
    let ((sound, complete), (_, archive)) = start_tar_iff whole in
    (
      whole,
      rw (got, eq_ls, eq_m, eq_c, made) refl,
      ap
            (λ (ps : List Bytes).
              manifest_path model_path work_dir model_name
              ∷ blob_path work_dir (codes "sha256:" ++ sum_sha256 c)
              ∷ ps)
            paths
          ∙ ap (λ (p : Bytes). p ∷ blob_paths work_dir (sum_sha256 c) hs)
              (manifest_path-IsSlashed model_path work_dir model_name slashed name),
      (
        (λ e. good.0 (sound e).1.1),
        (λ g. complete ((refl, refl, refl), ((refl, refl, refl), good.1 g))),
      ),
      λ g.
          rw (archive ((refl, refl, refl), ((refl, refl, refl), good.1 g)))
            (ap (λ (cs : List Bytes). m ∷ c ∷ cs) (contents-entry_of fs ∙ contents g)),
    )
