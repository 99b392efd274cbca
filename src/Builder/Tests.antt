-- ===== src/Builder/Tests.antt =====
-- Runs of pkg/builder: archives, sources of files and models, and links.
use jitdi.Base.{
  path_join, strip_prefix, lookup, some, IsPlainName, one_letter-IsPlainName, ℕ, ◌≡◌, ◌↔◌, refl,
  false, none, List, [], ◌∷◌, map, Bytes, codes, length, All, Among, bytes_eq, if◌then◌else◌, arith,
}
use jitdi.Exec.{Result, ok, err, fault, not_exist, bad_link, not_computed}
use jitdi.Container.{Hash}
use jitdi.Builder.Tar.{Reader, File, Entry, start_tar}
use jitdi.Builder.Tar.Complete.{Opens, IsGood, archive_of, entry_of, start_tar_iff}
use jitdi.Builder.Files
use jitdi.Builder.Files.{Node, file, dir, Entries, end, entry, Host, Web}
use jitdi.Builder.Files.Walk.{AreReadable, tree, flat}
use jitdi.Builder.Files.Local.{build-start_tar, build-length}
use jitdi.Disk.{Disk}
use jitdi.Builder.Link
use jitdi.Builder.Link.{CacheFileLayer, cached_size, cached_diff_id}
use jitdi.Builder.Link.Reuse.{in_turn, cached_digest_lem}
use jitdi.Builder.Ollama
use jitdi.Builder.Ollama.{Layer, Model, buffer}
use jitdi.Builder.Ollama.Archive.{IsPlain, first_colon, build-AreDigests}

abbrev text : Result (Reader × ℕ)
text = ok (buffer (codes "abc"), 3)

abbrev two_files : List File
two_files =
    record { path = codes "/a"; mode = 420; open_reader = text }
    ∷ record { path = codes "/b"; mode = 420; open_reader = err fault }
    ∷ []

start_tar_iff_example :
    (((start_tar two_files).error ≡ none) ↔ All IsGood two_files)
    × ((start_tar two_files ≡ archive_of two_files) ↔ All IsGood two_files)
start_tar_iff_example = start_tar_iff two_files

-- A directory with a file and a directory of one file.
abbrev conf : Entries
conf =
    entry (codes "a") (file text) (entry (codes "d") (dir (entry (codes "b") (file text) end)) end)

abbrev host : Host
host = record {
  find = λ p. if bytes_eq p (codes "conf") then ok (false, dir conf) else err not_exist;
}

abbrev web : Web
web = record {
  parse = λ p. ok (record { scheme = []; path = p; text = p });
  head = λ _. err fault;
  get = λ _. err fault;
}

letter_a : IsPlainName (codes "a")
letter_a = one_letter-IsPlainName b'a' (omega arith) (omega arith)

letter_b : IsPlainName (codes "b")
letter_b = one_letter-IsPlainName b'b' (omega arith) (omega arith)

letter_d : IsPlainName (codes "d")
letter_d = one_letter-IsPlainName b'd' (omega arith) (omega arith)

conf_readable : AreReadable Opens conf
conf_readable = (letter_a, (refl, refl, refl), (letter_d, (letter_b, (refl, refl, refl), tt), tt))

build-start_tar_example :
    (fs : List File) × (Files.build 420 host web (codes "conf") (codes "/etc") ≡ ok fs)
    × ((start_tar fs).error ≡ none)
    × All (Among (start_tar fs).entries) (map entry_of (tree 420 conf (codes "/etc")))
unfolding bytes_eq
build-start_tar_example =
    build-start_tar 420 host web (codes "conf") (codes "/etc") conf ((λ e. cc), λ e. cc) refl
      conf_readable

build-length_example :
    (fs : List File) × (Files.build 420 host web (codes "conf") (codes "/etc") ≡ ok fs)
    × All (Among fs) (flat 420 conf (codes "/etc"))
    × (length fs ≡ 3)
unfolding bytes_eq
build-length_example =
    build-length 420 host web (codes "conf") (codes "/etc") conf ((λ e. cc), λ e. cc) refl
      (letter_a, tt, (letter_d, (letter_b, tt, tt), tt))

abbrev weights : Hash
weights = record { algorithm = codes "sha256"; hex = codes "77" }

abbrev weights_layer : Layer
weights_layer = record { digest = ok weights; uncompressed = ok (buffer (codes "ww")); size = ok 2 }

abbrev llama : Model
llama = record {
  layers = ok (weights_layer ∷ []);
  raw_manifest = ok (codes "{}");
  raw_config_file = ok (codes "[]");
}

build-AreDigests_example :
    (fs : List File) × (Ollama.build 420
        (λ s. s)
        (λ _. ok llama)
        (codes "llama:7b")
        (codes "/models")
        []
      ≡ ok fs)
    × (map (λ (f : File). f.path) fs
        ≡ codes "/models/manifests/llama/7b"
          ∷ codes "/models/blobs/sha256:[]"
          ∷ codes "/models/blobs/sha256:77"
          ∷ [])
    × (((start_tar fs).error ≡ none) ↔ All IsPlain (weights_layer ∷ []))
    × (All IsPlain (weights_layer ∷ [])
        → map (λ (e : Entry). e.contents) (start_tar fs).entries
          ≡ codes "{}" ∷ codes "[]" ∷ codes "ww" ∷ [])
unfolding path_join
build-AreDigests_example =
    build-AreDigests 420 (λ s. s) (λ _. ok llama) (codes "llama:7b") (codes "/models") []
      (codes "llama/7b") llama (codes "{}") (codes "[]") (weights_layer ∷ []) (weights ∷ []) refl
      refl refl refl (refl, tt) (first_colon (codes "llama") (codes "7b") (omega arith))

-- `NewHash` where the algorithm is "sha256", and the text of the digits follows.
abbrev sha256_hash : Bytes → Result Hash
sha256_hash s = elim (strip_prefix (codes "sha256:") s) [
  | some hex ↦ ok (record { algorithm = codes "sha256"; hex = hex })
  | none ↦ err bad_link
]

abbrev contents : Hash
contents = record { algorithm = codes "sha256"; hex = codes "c0" }

abbrev first_layer : Link.Layer
first_layer = record { digest = ok weights; size = ok 120; diff_id = ok contents }

abbrev unread_layer : Link.Layer
unread_layer = record {
  digest = err not_computed;
  size = err not_computed;
  diff_id = err not_computed;
}

abbrev empty_disk : Disk
empty_disk = record { files = []; temps = λ _. []; next_temp = 0; faults = [] }

cached_digest_lem_example :
    (c' : CacheFileLayer) × ((in_turn sha256_hash
        (codes "/link")
        first_layer
        first_layer
        unread_layer
        empty_disk).0
      ≡ ok (weights, c'))
    × (cached_size c' ≡ ok 120)
    × (cached_diff_id c' ≡ ok contents)
unfolding strip_prefix lookup
cached_digest_lem_example =
    cached_digest_lem sha256_hash (codes "/link") first_layer first_layer unread_layer weights
      contents weights 120 empty_disk refl refl (refl, refl, refl) refl refl
      ((refl, (refl, (refl, (refl, (refl, (refl, (refl, (refl, (refl, tt))))))))), refl)
      ((refl, (refl, (refl, (refl, (refl, (refl, (refl, (refl, (refl, tt))))))))), refl) (λ e. cc)
      (omega arith) (omega arith)
