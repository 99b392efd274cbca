-- ===== src/Builder/Tar/Complete.antt =====
-- pkg/builder/tar.go: which files end up in an archive.
use jitdi.Base.{
  ℕ, ◌≡◌, ◌↔◌, refl, ap, ◌∙◌, true, none, List, [], ◌∷◌, ◌++◌, append_assoc, append-nil, map, arith,
  Bytes, length, All,
}
use jitdi.Exec.{Exec, Result, ok, err, nothing, continue, attempt}
use jitdi.Builder.Tar.{
  Reader, File, Entry, Writer, extend, extend_last, Stream, close_reader, write_file, opened,
  tar_file, tar_files, start_tar, finished,
}

-- The reader yields all of its contents, as many as `OpenReader` says, and can be closed.
abbrev pub Opens : Result (Reader × ℕ) → Type 0
Opens (ok (r, size)) = (r.failure ≡ none) × (r.close ≡ ok nothing) × (length r.contents ≡ size)
Opens (err e) = ⊥

abbrev pub IsGood : File → Type 0
IsGood f = Opens f.open_reader

abbrev pub contents_of : File → Bytes
contents_of f = elim f.open_reader [ ok (r, size) ↦ r.contents | err e ↦ [] ]

abbrev pub entry_of : File → Entry
entry_of f = record {
  name = f.path;
  size = length (contents_of f);
  mode = f.mode;
  contents = contents_of f;
}

-- The archive of all contents, with its footer and no error.
abbrev pub archive_of : List File → Stream
archive_of fs = record { entries = map entry_of fs; footer = true; error = none }

extend_last-append :
    (es : List Entry) (e : Entry) (s : Bytes) → extend_last s (es ++ e ∷ []) ≡ es ++ extend s e ∷ []
unfolding extend_last
extend_last-append [] e s = refl
extend_last-append (d ∷ []) e s = refl
extend_last-append (d ∷ c ∷ es) e s =
    ap (λ (r : List Entry). d ∷ r) (extend_last-append (c ∷ es) e s)

-- The file with the header of `f` that has been written in full.
abbrev written : File → Reader → Entry
written f r = record {
  name = f.path;
  size = length r.contents;
  mode = f.mode;
  contents = r.contents;
}

write_file_good :
    (f : File) (r : Reader) (size : ℕ) (w : Writer)
    → r.failure ≡ none
    → length r.contents ≡ size
    → w.left ≡ 0
    → write_file f r size w
      ≡ (ok nothing, record { entries = w.entries ++ written f r ∷ []; left = 0 })
unfolding write_file
write_file_good f r size w good l z = ground (
  arith,
  extend_last-append w.entries (record { name = f.path; size = size; mode = f.mode; contents = [] })
      r.contents,
)

write_file_ok :
    (f : File) (r : Reader) (size : ℕ) (w : Writer) (u : Unit {0})
    → (write_file f r size w).0 ≡ ok u
    → (r.failure ≡ none) × (length r.contents ≡ size)
unfolding write_file
write_file_ok f r size w u h = ground arith

written-entry_of :
    (f : File) (r : Reader) (size : ℕ) → f.open_reader ≡ ok (r, size) → written f r ≡ entry_of f
written-entry_of f r size e = rw e refl

opened_good :
    (f : File) (o : Result (Reader × ℕ)) (w : Writer)
    → f.open_reader ≡ o
    → Opens o
    → w.left ≡ 0
    → opened f o w ≡ (ok nothing, record { entries = w.entries ++ entry_of f ∷ []; left = 0 })
unfolding opened close_reader
opened_good f (ok (r, size)) w e (good, closes, l) z =
    ap (attempt (close_reader r)) (write_file_good f r size w good l z)
    ∙ rw (closes, written-entry_of f r size e) refl
opened_good f (err e') w e g z = absurd g

closed_ok :
    (r : Reader) (q : Result (Unit {0})) (w : Writer) (u : Unit {0})
    → (close_reader r q w).0 ≡ ok u
    → (q ≡ ok nothing) × (r.close ≡ ok nothing)
unfolding close_reader
closed_ok r q w u h = ground arith

opened_ok :
    (f : File) (o : Result (Reader × ℕ)) (w : Writer) (u : Unit {0})
    → (opened f o w).0 ≡ ok u
    → Opens o
unfolding opened
opened_ok f (ok (r, size)) w u h =
    let (wrote, closes) = closed_ok r (write_file f r size w).0 (write_file f r size w).1 u h in
    let (good, l) = write_file_ok f r size w nothing wrote in (good, closes, l)
opened_ok f (err e) w u h = cc

tar_file_good :
    (f : File) (w : Writer)
    → IsGood f
    → w.left ≡ 0
    → tar_file f w ≡ (ok nothing, record { entries = w.entries ++ entry_of f ∷ []; left = 0 })
unfolding tar_file
tar_file_good f w g z = opened_good f f.open_reader w refl g z

tar_file_ok : (f : File) (w : Writer) (u : Unit {0}) → (tar_file f w).0 ≡ ok u → IsGood f
unfolding tar_file
tar_file_ok f w u h = opened_ok f f.open_reader w u h

tar_files_good :
    (fs : List File) (w : Writer)
    → All IsGood fs
    → w.left ≡ 0
    → tar_files fs w ≡ (ok nothing, record { entries = w.entries ++ map entry_of fs; left = 0 })
unfolding tar_files
tar_files_good [] w g z =
    ap (λ (w : Writer). (ok nothing, w)) (ground (arith, append-nil w.entries))
tar_files_good (f ∷ fs) w (g, gs) z =
    ap (continue (λ _. tar_files fs)) (tar_file_good f w g z)
    ∙ tar_files_good fs (record { entries = w.entries ++ entry_of f ∷ []; left = 0 }) gs refl
    ∙ ap (λ (es : List Entry). (ok nothing, record { entries = es; left = 0 }))
        (append_assoc w.entries (entry_of f ∷ []) (map entry_of fs))

continue_ok :
    (k : Exec Writer (Unit {0})) (r : Result (Unit {0})) (w : Writer) (u : Unit {0})
    → (continue (λ (_ : Unit {0}). k) (r, w)).0 ≡ ok u
    → (r ≡ ok nothing) × ((k w).0 ≡ ok u)
continue_ok k (ok a) w u h = (refl, h)
continue_ok k (err e) w u h = cc

tar_files_ok :
    (fs : List File) (w : Writer) (u : Unit {0}) → (tar_files fs w).0 ≡ ok u → All IsGood fs
unfolding tar_files
tar_files_ok [] w u h = tt
tar_files_ok (f ∷ fs) w u h =
    let (now, later) = continue_ok (tar_files fs) (tar_file f w).0 (tar_file f w).1 u h in
    (tar_file_ok f w nothing now, tar_files_ok fs (tar_file f w).1 u later)

finished-none :
    (r : Result (Unit {0})) (w : Writer) → (finished (r, w)).error ≡ none → r ≡ ok nothing
unfolding finished
finished-none (ok u) w h = refl
finished-none (err e) w h = cc

-- Reading the archive of some files ends without an error exactly if every file can be opened, read and
-- closed and is as long as its opening says, and exactly then it holds all of them, in order and with
-- their contents, and a footer.
pub start_tar_iff :
    (fs : List File)
    → (((start_tar fs).error ≡ none) ↔ All IsGood fs)
      × ((start_tar fs ≡ archive_of fs) ↔ All IsGood fs)
unfolding start_tar
start_tar_iff fs =
    let complete : All IsGood fs → start_tar fs ≡ archive_of fs =
      λ g. ap finished (tar_files_good fs (record { entries = []; left = 0 }) g refl) in
    let good : (start_tar fs).error ≡ none → All IsGood fs =
      λ h. tar_files_ok fs (record { entries = []; left = 0 }) nothing (finished-none _ _ h) in
    (
      (good, λ g. ap (λ (s : Stream). s.error) (complete g)),
      (λ h. good (ap (λ (s : Stream). s.error) h), complete),
    )
