-- ===== src/Handler/Mutates/Directory.antt =====
-- pkg/handler/mutates.go with pkg/builder/files/files.go and pkg/builder/ollama/ollama.go: an image that
-- a directory of the host is put into.
use jitdi.Base.{
  ℕ, ◌≡◌, refl, ap, List, [], ◌∷◌, ◌++◌, map, Bytes, codes, All, Among, Bool-cases, inl, inr,
  is_empty, false,
}
use jitdi.Exec.{Result, ok, lift}
use jitdi.Exec.Pure
use jitdi.Config.{File}
use jitdi.Container.{Layer}
use jitdi.Container
use jitdi.Builder.Tar
use jitdi.Builder.Tar.Complete.{Opens, IsGood}
use jitdi.Builder.Files
use jitdi.Builder.Files.{Host, Web, Entries, dir}
use jitdi.Builder.Files.Walk.{AreReadable, tree}
use jitdi.Builder.Files.Local.{IsLocal, build-AreReadable}
use jitdi.Builder.Ollama
use jitdi.Builder.Ollama.{Model}
use jitdi.Builder.Image
use jitdi.Builder.Image.{
  LayerOps, Addendum, append_layer, append_file_as_new_layer, append_file_as_new_layer_with_link,
  new_image,
}
use jitdi.Handler.Mutates.{
  Sources, default_mode, append_one, append_files, append_all, file_mode, sum_file_info,
  mutate_image_with_file,
}
use jitdi.Handler.Mutates.Laws.{AddsLayer, layer_of, append_all-layers}

-- The sources that the handler uses: the files of a host and of the network, and the models of a
-- registry, by what `get` returns of them.
unfoldable pub local_sources :
    {S : Type 0}
    → Host
    → Web
    → (Bytes → Result Model)
    → (Bytes → Result ℕ)
    → (Bytes → Layer → Layer)
    → (Bytes → Bytes)
    → Sources S
unfolding Files.build Ollama.build
local_sources host web get parse_int cache_layer sum_sha256 = record {
  build_files = λ mode source destination. lift (Files.build mode host web source destination);
  build_ollama = λ mode model work_dir model_name.
      lift (Ollama.build mode sum_sha256 get model work_dir model_name);
  parse_int = parse_int;
  cache_layer = cache_layer;
  sum_sha256 = sum_sha256;
}

-- Every layer can be appended.
abbrev pub Appends : LayerOps → Type 0
Appends ops =
    (img : Container.Image) (a : Addendum) → (img' : Container.Image) × (ops.append img a ≡ ok img')

module _ {S : Type 0} (ops : LayerOps) (sources : Sources S) (appends : Appends ops) where
  append_layer-Appends :
      (i : Image.Image) (file : Tar.File) (layer : Layer)
      → (i' : Image.Image) × (append_layer ops i file layer ≡ ok i')
  unfolding append_layer
  append_layer-Appends i file layer =
      let a : Addendum = record {
        layer = layer;
        author = codes "jitdi";
        created_by = codes "Add " ++ file.path;
      } in
      let (img', e) = appends i.image a in
      (record i { image = img' }, ap (λ r. Pure.◌>>=◌ r λ img'. ok (record i { image = img' })) e)

  append_one-Appends :
      (link_path link : Bytes) (v : Tar.File) (i : Image.Image)
      → (i' : Image.Image) × (append_one ops sources link_path link v i ≡ ok i')
  unfolding append_one append_file_as_new_layer append_file_as_new_layer_with_link
  append_one-Appends link_path link v i = elim (Bool-cases (is_empty link_path)) [
    | inl e ↦ rw e (append_layer-Appends i v _)
    | inr e ↦ rw e (append_layer-Appends i v _)
  ]

  append_files-Appends :
      (link_path : Bytes) (link : Tar.File → Bytes) (fs : List Tar.File) (i : Image.Image)
      → (i' : Image.Image) × (append_files ops sources link_path link fs i ≡ ok i')
  unfolding append_files
  append_files-Appends link_path link [] i = (i, refl)
  append_files-Appends link_path link (v ∷ fs) i =
      let (i', e) = append_one-Appends link_path (link v) v i in
      let (j, f) = append_files-Appends link_path link fs i' in (j, rw e f)

  append_all-Appends :
      (image : Container.Image) (link_path : Bytes) (link : Tar.File → Bytes) (fs : List Tar.File)
      (media_type : Bytes)
      → image.media_type ≡ ok media_type
      → (img : Container.Image) × (append_all ops sources image link_path link fs ≡ ok img)
  unfolding append_all new_image
  append_all-Appends image link_path link fs media_type m =
      let (i, e) =
        append_files-Appends link_path link fs
          (record { base_image = image; image = image; media_type = media_type }) in
      (i.image, simp (m, e) refl)

-- A mutation that puts a readable directory of the host into an image, with no mode written, appends
-- one layer for each file that the directory gives: all of these files can be read in full, and every
-- file of the directory is among them under its own path in the destination. The source is no address
-- of HTTP and no link, and the library has to append every layer and to put it last.
pub mutate_image_with_file-AreReadable :
    {S : Type 0} (ops : LayerOps) (host : Host) (web : Web) (get : Bytes → Result Model)
    (parse_int : Bytes → Result ℕ) (cache_layer : Bytes → Layer → Layer)
    (sum_sha256 : Bytes → Bytes) (image : Container.Image)
    (source destination link_path media_type : Bytes) (ls : List Layer) (es : Entries) (s : S)
    → AddsLayer ops
    → Appends ops
    → image.media_type ≡ ok media_type
    → image.layers ≡ ok ls
    → IsLocal (web.parse source)
    → host.find source ≡ ok (false, dir es)
    → AreReadable Opens es
    → let sources : Sources S = local_sources host web get parse_int cache_layer sum_sha256 in
      let f : File = record { source = source; destination = destination; mode = [] } in
      (img : Container.Image) × (fs : List Tar.File) × (mutate_image_with_file ops sources image f
          link_path s
        ≡ (ok img, s))
      × (img.layers
          ≡ ok (
              ls
              ++ map
                  (layer_of ops sources media_type link_path
                    (λ v. sum_file_info ops sources link_path v.path f))
                  fs))
      × All IsGood fs
      × All (Among fs) (tree default_mode es destination)
unfolding local_sources mutate_image_with_file file_mode
mutate_image_with_file-AreReadable {S = S} ops host web get parse_int cache_layer sum_sha256 image
      source destination link_path media_type ls es s adds appends m l local found h =
    let sources : Sources S = local_sources host web get parse_int cache_layer sum_sha256 in
    let f : File = record { source = source; destination = destination; mode = [] } in
    let (fs, made, good, inside) =
      build-AreReadable default_mode host web source destination es local found h in
    let (img, all) =
      append_all-Appends ops sources appends image link_path
        (λ v. sum_file_info ops sources link_path v.path f) fs media_type m in
    (
      img,
      fs,
      rw (made, all) refl,
      append_all-layers ops sources image img link_path _ fs media_type ls adds m l all,
      good,
      inside,
    )
