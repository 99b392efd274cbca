-- ===== src/Storage/Layers/Addressed.antt =====
-- pkg/storage/local.go: `saveLayer` keeps every blob under the digits of its own contents.
use jitdi.Base.{
  ℕ, ◌≡◌, Bool, true, false, Bool-cases, inl, inr, some, List, [], arith, Bytes, lookup, insert,
  lookup-insert, bytes_eq, bytes_eq_iff, ◌==◌,
}
use jitdi.Exec.{Result, ok, err, try, raise}
use jitdi.Disk.{Disk, touch, create_temp, copy, read}
use jitdi.Disk.Laws.{
  Ensures, bind-Ensures, lift-Ensures, try-Ensures, OnFiles, OnTemp, Created, Copied, touch-OnFiles,
  create_temp-Created, copy-Copied, read-OnFiles, rename-OnFiles,
}
use jitdi.Storage.Paths.{local_blob_path, IsHex, local_blob_path-injective}
use jitdi.Container.{Hash, Layer}
use jitdi.Storage.Layers.{
  hit_layer, hit_size, remove_on_error, after_reader, after_copy, write_file_with_reader,
  rename_layer, store_layer, unless_hit, save_layer,
}

-- The steps of `saveLayer` behind each call, for what depends on the files alone (`F`).
module _ (F : List (Bytes × Bytes) → Type 0) where
  remove_on_error-Copied :
      (t : ℕ) (s : Bytes) (r : Result (Unit {0}))
      → Ensures (Copied F t s r) (remove_on_error r) (Copied F t s)
  unfolding remove_on_error
  remove_on_error-Copied t s (ok u) d h = h
  remove_on_error-Copied t s (err e) d h =
      try-Ensures (OnFiles F) (λ _. OnFiles F) (Copied F t s) touch (λ _. raise e) (touch-OnFiles F)
        (λ r d g. g) d h

  touch-Copied : (t : ℕ) (s : Bytes) → Ensures (OnTemp F t s) touch (Copied F t s)
  unfolding touch
  touch-Copied t s d h = ground arith

  after_reader-Copied :
      (t : ℕ) (s : Bytes) (r : Result (Unit {0}))
      → Ensures (Copied F t s r) (after_reader r) (Copied F t s)
  unfolding after_reader
  after_reader-Copied t s (ok u) d h = touch-Copied t s d h
  after_reader-Copied t s (err e) d h =
      try-Ensures (OnFiles F) (λ _. OnFiles F) (Copied F t s) touch (λ _. raise e) (touch-OnFiles F)
        (λ r d g. g) d h

  after_copy-Copied :
      (t : ℕ) (s : Bytes) (r : Result (Unit {0}))
      → Ensures (Copied F t s r) (after_copy r) (Copied F t s)
  unfolding after_copy
  after_copy-Copied t s (ok u) d h =
      try-Ensures (OnTemp F t s) (Copied F t s) (Copied F t s) touch after_reader (touch-Copied t s)
        (after_reader-Copied t s) d h
  after_copy-Copied t s (err e) d h =
      try-Ensures (OnFiles F) (λ _. OnFiles F) (Copied F t s) touch (λ _. try touch (λ _. raise e))
        (touch-OnFiles F)
        (λ r.
          try-Ensures (OnFiles F) (λ _. OnFiles F) (Copied F t s) touch (λ _. raise e)
            (touch-OnFiles F) (λ r' d g. g))
        d h

  write_file_with_reader-Copied :
      (t : ℕ) (s : Bytes) → Ensures (OnTemp F t []) (write_file_with_reader t s) (Copied F t s)
  unfolding write_file_with_reader
  write_file_with_reader-Copied t s =
      try-Ensures (OnTemp F t []) (Copied F t s) (Copied F t s) (try (copy t s) after_copy)
        remove_on_error
        (try-Ensures (OnTemp F t []) (Copied F t s) (Copied F t s) (copy t s) after_copy
          (copy-Copied F t s) (after_copy-Copied t s))
        (remove_on_error-Copied t s)

-- `saveLayer` keeps `F`, if `F` outlasts the layer's contents being put at the path of its digest.
module _ (F : List (Bytes × Bytes) → Type 0) (layer : Layer) (cache : Bytes)
    (keep : (h : Hash) (c : Bytes)
      → layer.digest true ≡ ok h
      → layer.compressed ≡ ok c
      → (files : List (Bytes × Bytes)) → F files
      → F (insert (local_blob_path cache h.hex) c files)) where
  rename_layer-OnFiles :
      (t : ℕ) (h : Hash) (c : Bytes) (size : ℕ)
      → layer.digest true ≡ ok h
      → layer.compressed ≡ ok c
      → Ensures (OnTemp F t c) (rename_layer t cache h size) (λ _. OnFiles F)
  unfolding rename_layer
  rename_layer-OnFiles t h c size e e' d g = elim (Bool-cases (size == 0)) [
    | inl z ↦ rw z g.0
    | inr z ↦ rw z (rename-OnFiles F t (local_blob_path cache h.hex) c (keep h c e e') d g)
  ]

  store_layer-OnFiles : Ensures (OnFiles F) (store_layer layer cache) (λ _. OnFiles F)
  unfolding store_layer
  store_layer-OnFiles =
      bind-Ensures (OnFiles F) (λ _. OnFiles F) (λ _. OnFiles F) touch _ (touch-OnFiles F)
        (λ _.
          bind-Ensures (OnFiles F) (Created F) (λ _. OnFiles F) create_temp _
            (create_temp-Created F)
            (λ t.
              lift-Ensures (OnTemp F t []) (λ _. OnFiles F) layer.compressed _
                (λ c e.
                  bind-Ensures (OnTemp F t []) (Copied F t c) (λ _. OnFiles F)
                    (write_file_with_reader t c) _ (write_file_with_reader-Copied F t c)
                    (λ _.
                      lift-Ensures (OnTemp F t c) (λ _. OnFiles F) (layer.digest true) _
                        (λ h e'.
                          lift-Ensures (OnTemp F t c) (λ _. OnFiles F) (layer.size true) _
                            (λ size _. rename_layer-OnFiles t h c size e' e) (λ _ d g. g.0))
                        (λ _ d g. g.0))
                    (λ _ d g. g))
                (λ _ d g. g.0))
            (λ _ d g. g))
        (λ _ d g. g)

  hit_size-OnFiles : (r : Result Bytes) → Ensures (OnFiles F) (hit_size layer r) (λ _. OnFiles F)
  unfolding hit_size
  hit_size-OnFiles (ok c) d g = g
  hit_size-OnFiles (err e) d g = g

  hit_layer-OnFiles :
      (r : Result Hash) → Ensures (OnFiles F) (hit_layer layer cache r) (λ _. OnFiles F)
  unfolding hit_layer
  hit_layer-OnFiles (ok h) d g =
      try-Ensures (OnFiles F) (λ _. OnFiles F) (λ _. OnFiles F) (read (local_blob_path cache h.hex))
        (hit_size layer) (read-OnFiles F (local_blob_path cache h.hex)) hit_size-OnFiles d g
  hit_layer-OnFiles (err e) d g = g

  unless_hit-OnFiles : (b : Bool) → Ensures (OnFiles F) (unless_hit layer cache b) (λ _. OnFiles F)
  unfolding unless_hit
  unless_hit-OnFiles true d g = g
  unless_hit-OnFiles false d g = store_layer-OnFiles d g

  pub save_layer-OnFiles : Ensures (OnFiles F) (save_layer layer cache) (λ _. OnFiles F)
  unfolding save_layer
  save_layer-OnFiles =
      bind-Ensures (OnFiles F) (λ _. OnFiles F) (λ _. OnFiles F)
        (hit_layer layer cache (layer.digest false)) (unless_hit layer cache)
        (hit_layer-OnFiles (layer.digest false)) unless_hit-OnFiles (λ _ d g. g)

module _ (sum_sha256 : Bytes → Bytes) (cache : Bytes) where
  -- Every file at the path of a blob has contents whose digest is in the path.
  abbrev pub IsAddressed : List (Bytes × Bytes) → Type 0
  IsAddressed files =
      (hex c : Bytes)
      → IsHex hex
      → lookup (local_blob_path cache hex) files ≡ some c
      → sum_sha256 c ≡ hex

  -- The layer's digest, if it has one, is that of its contents.
  abbrev pub IsHonest : Layer → Type 0
  IsHonest layer =
      (h : Hash) (c : Bytes)
      → layer.digest true ≡ ok h
      → layer.compressed ≡ ok c
      → IsHex h.hex × (sum_sha256 c ≡ h.hex)

  insert-IsAddressed :
      (h c : Bytes) (files : List (Bytes × Bytes))
      → IsHex h
      → sum_sha256 c ≡ h
      → IsAddressed files
      → IsAddressed (insert (local_blob_path cache h) c files)
  insert-IsAddressed h c files p e a hex c' q l =
      elim (Bool-cases (bytes_eq (local_blob_path cache h) (local_blob_path cache hex))) [
        | inl same ↦
            let eq =
              local_blob_path-injective cache h hex p q
                ((bytes_eq_iff (local_blob_path cache h) (local_blob_path cache hex)).0 same) in
            ground (
              arith,
              eq,
              same,
              lookup-insert (local_blob_path cache h) (local_blob_path cache hex) c files,
            )
        | inr other ↦ ground (
          arith,
          other,
          a hex c' q,
          lookup-insert (local_blob_path cache h) (local_blob_path cache hex) c files,
        )
      ]

  -- Whatever fails while a layer is saved, every blob still has the contents that its path names, if
  -- the layer's own digest is right.
  pub save_layer-IsAddressed :
      (layer : Layer) (d : Disk)
      → IsHonest layer
      → IsAddressed d.files
      → IsAddressed (save_layer layer cache d).1.files
  save_layer-IsAddressed layer d honest a =
      save_layer-OnFiles IsAddressed layer cache
        (λ h c e e' files g.
          insert-IsAddressed h.hex c files (honest h c e e').0 (honest h c e e').1 g)
        d a
