-- ===== src/Atomic/Files/Outcomes.antt =====
-- pkg/atomic/files.go: what `WriteFile` leaves on the disk.
use jitdi.Base.{
  ℕ, subst, sym, insert, false, ◌≡◌, refl, Bytes, List, [], ◌∷◌, none, some, arith, lookup,
  lookup-insert, bytes_eq, bytes_eq_refl, if◌then◌else◌,
}
use jitdi.Exec.{lift, try, Result, ok, err, fault}
use jitdi.Disk.{Disk, touch, create_temp, copy, rename, taken}
use jitdi.Disk.Laws.{
  Ensures, bind-Ensures, try-Ensures, OnFiles, touch-OnFiles, create_temp-OnFiles, copy-OnFiles,
  rename_any-OnFiles,
}
use jitdi.Atomic.Files.{WriteCloser, close, after_chmod, open_file_with_writer, write_file}

-- With no fault, the file has the contents and no other file changes.
pub write_file_no_fault :
    (path contents : Bytes) (d : Disk)
    → d.faults ≡ []
    → ((write_file path contents d).0 ≡ ok tt)
      × ((p : Bytes)
          → lookup p (write_file path contents d).1.files
            ≡ (if bytes_eq path p then some contents else lookup p d.files))
unfolding write_file
write_file_no_fault path contents d h =
    (ground arith, λ p. ground (arith, lookup-insert path p contents d.files))

-- `WriteFile` keeps whatever outlasts any contents being put at its path.
module _ (F : List (Bytes × Bytes) → Type 0) (path : Bytes)
    (keep : (s : Bytes) (files : List (Bytes × Bytes)) → F files → F (insert path s files)) where
  -- The file that is opened is the one asked for.
  abbrev Opened : Result WriteCloser → Disk → Type 0
  Opened (ok a) d = F d.files × (a.path ≡ path)
  Opened (err e) d = F d.files

  after_chmod-Opened :
      (f : ℕ) (r : Result (Unit {0})) → Ensures (OnFiles F) (after_chmod f path r) Opened
  unfolding after_chmod
  after_chmod-Opened f (ok u) d h = (h, refl)
  after_chmod-Opened f (err e) d h =
      try-Ensures (OnFiles F) (λ _. OnFiles F) Opened touch (λ _. lift (err e)) (touch-OnFiles F)
        (λ r d g. g) d h

  open-Opened : Ensures (OnFiles F) (open_file_with_writer path) Opened
  unfolding open_file_with_writer
  open-Opened =
      bind-Ensures (OnFiles F) (λ _. OnFiles F) Opened touch _ (touch-OnFiles F)
        (λ _.
          bind-Ensures (OnFiles F) (λ _. OnFiles F) Opened create_temp _ (create_temp-OnFiles F)
            (λ f.
              try-Ensures (OnFiles F) (λ _. OnFiles F) Opened touch (after_chmod f path)
                (touch-OnFiles F) (after_chmod-Opened f))
            (λ _ d g. g))
        (λ _ d g. g)

  close-OnFiles : (a : WriteCloser) → a.path ≡ path → Ensures (OnFiles F) (close a) (λ _. OnFiles F)
  unfolding close
  close-OnFiles a e =
      try-Ensures (OnFiles F) (λ _. OnFiles F) (λ _. OnFiles F) touch (λ _. rename a.f a.path)
        (touch-OnFiles F)
        (λ _.
          rename_any-OnFiles F a.f a.path
            (λ s files h. subst (λ p. F (insert p s files)) (sym e) (keep s files h)))

  write-Opened :
      (contents : Bytes) (a : WriteCloser)
      → Ensures
          (Opened (ok a))
          (try (copy a.f contents) (λ r. try (close a) (λ _. lift r)))
          (λ _. OnFiles F)
  write-Opened contents a d (h, e) =
      try-Ensures (OnFiles F) (λ _. OnFiles F) (λ _. OnFiles F) (copy a.f contents)
        (λ r. try (close a) (λ _. lift r)) (copy-OnFiles F a.f contents)
        (λ r.
          try-Ensures (OnFiles F) (λ _. OnFiles F) (λ _. OnFiles F) (close a) (λ _. lift r)
            (close-OnFiles a e) (λ _ d g. g))
        d h

  pub write_file-OnFiles :
      (contents : Bytes) → Ensures (OnFiles F) (write_file path contents) (λ _. OnFiles F)
  unfolding write_file
  write_file-OnFiles contents =
      bind-Ensures (OnFiles F) Opened (λ _. OnFiles F) (open_file_with_writer path) _ open-Opened
        (write-Opened contents) (λ _ d g. g)

-- Whatever fails while a file is written, no other file changes.
pub write_file_elsewhere :
    (path contents p : Bytes) (d : Disk)
    → bytes_eq path p ≡ false
    → lookup p (write_file path contents d).1.files ≡ lookup p d.files
write_file_elsewhere path contents p d h =
    write_file-OnFiles (λ files. lookup p files ≡ lookup p d.files) path
      (λ s files e. ground (arith, e, lookup-insert path p s files)) contents d refl

-- A copy that fails after `n` bytes makes `WriteFile` return the error, and the deferred `Close` still
-- puts the first `n` bytes in the place of the file: what was there is lost.
pub write_file_partial :
    (path contents : Bytes) (n : ℕ) (d : Disk)
    → d.faults ≡ none ∷ none ∷ none ∷ some n ∷ []
    → ((write_file path contents d).0 ≡ err fault)
      × (lookup path (write_file path contents d).1.files ≡ some (taken n contents))
unfolding write_file
write_file_partial path contents n d h = (
  ground arith,
  ground (arith, lookup-insert path path (taken n contents) d.files, bytes_eq_refl path),
)

-- Where only the renaming fails, `WriteFile` returns no error and no file has changed.
pub write_file_unnoticed :
    (path contents : Bytes) (n : ℕ) (d : Disk)
    → d.faults ≡ none ∷ none ∷ none ∷ none ∷ none ∷ some n ∷ []
    → ((write_file path contents d).0 ≡ ok tt) × ((write_file path contents d).1.files ≡ d.files)
unfolding write_file
write_file_unnoticed path contents n d h = (ground arith, ground arith)

-- No fault is left over where there was none.
pub write_file-faults :
    (path contents : Bytes) (d : Disk) → d.faults ≡ [] → (write_file path contents d).1.faults ≡ []
unfolding write_file
write_file-faults path contents d h = ground arith
