-- ===== src/Builder/Tar.antt =====
-- pkg/builder/tar.go: files, and the archive that is written as it is read.
pub mod Complete
use jitdi.Base.{
  ℕ, ◌-◌, ◌≡◌, refl, Bool, true, false, Option, none, some, List, [], ◌∷◌, ◌++◌, Bytes, codes,
  length, ltb, ◌==◌, if◌then◌else◌,
}
use jitdi.Exec.{
  Exec, Error, Result, ok, err, write_too_long, missed_bytes, short_write, nothing, ◌>>=◌, ◌>>◌,
  try, pure, raise, lift,
}
use jitdi.Disk.{taken}

-- An `io.ReadCloser`: what it yields, the error that a read then returns instead of the end, and what
-- `Close` returns.
pub record Reader : Type 0 where
  pub contents : Bytes
  pub failure : Option Error
  pub close : Result (Unit {0})

-- `File`; `open_reader` is what `OpenReader` returns when the archive is written. The modification
-- time, which is the same for all files, is left out.
pub record File : Type 0 where
  pub path : Bytes
  pub mode : ℕ
  pub open_reader : Result (Reader × ℕ)

-- A file of an archive: the fields of its header that vary, and the bytes behind the header.
pub record Entry : Type 0 where
  pub name : Bytes
  pub size : ℕ
  pub mode : ℕ
  pub contents : Bytes

-- A `tar.Writer` of archive/tar: what was written, and how many bytes the last file still lacks.
pub record Writer : Type 0 where
  pub entries : List Entry
  pub left : ℕ

abbrev pub extend : Bytes → Entry → Entry
extend s e = record e { contents = e.contents ++ s }

unfoldable pub extend_last : Bytes → List Entry → List Entry
extend_last s [] = []
extend_last s (e ∷ []) = extend s e ∷ []
extend_last s (e ∷ f ∷ es) = e ∷ extend_last s (f ∷ es)

-- `Writer.Flush`
unfoldable pub flush : Exec Writer (Unit {0})
flush w = if w.left == 0 then (ok nothing, w) else (err missed_bytes, w)

-- `Writer.WriteHeader`
unfoldable pub write_header : Bytes → ℕ → ℕ → Exec Writer (Unit {0})
unfolding flush
write_header name size mode = flush >> λ w. (
  ok nothing,
  record w {
    entries = w.entries ++ (record { name = name; size = size; mode = mode; contents = [] } ∷ []);
    left = size;
  },
)

abbrev copied : ℕ → Option Error → Result ℕ
copied n none = ok n
copied n (some e) = err e

-- `io.Copy` to the writer, which takes no more than the last file lacks.
unfoldable pub copy : Reader → Exec Writer ℕ
unfolding extend_last taken
copy r w =
    if ltb w.left (length r.contents)
    then (
      err write_too_long,
      record w { entries = extend_last (taken w.left r.contents) w.entries; left = 0 },
    )
    else (
      copied (length r.contents) r.failure,
      record w { entries = extend_last r.contents w.entries; left = w.left - length r.contents },
    )

-- From `tw.WriteHeader` on.
unfoldable pub write_file : File → Reader → ℕ → Exec Writer (Unit {0})
unfolding write_header copy flush
write_file f r size = do
  write_header f.path size f.mode
  n ← copy r
  (if n == size then flush else raise short_write)

-- The deferred function: the error of `Close` is returned if there is no other.
close_reader : Reader → Result (Unit {0}) → Exec Writer (Unit {0})
close_reader r (ok u) = lift r.close
close_reader r (err e) = raise e

opened : File → Result (Reader × ℕ) → Exec Writer (Unit {0})
opened f (ok (r, size)) = try (write_file f r size) (close_reader r)
opened f (err e) = raise e

unfoldable pub tar_file : File → Exec Writer (Unit {0})
unfolding write_file close_reader opened
tar_file f = opened f f.open_reader

-- The loop of the goroutine.
unfoldable pub tar_files : List File → Exec Writer (Unit {0})
unfolding tar_file
tar_files [] = pure nothing
tar_files (f ∷ fs) = tar_file f >> tar_files fs

-- What the reading end of the pipe sees: the files, the footer if there is one, and an error, or none
-- at a regular end.
pub record Stream : Type 0 where
  pub entries : List Entry
  pub footer : Bool
  pub error : Option Error

-- Behind `tw.Close`, which flushes and writes the footer.
closed : Result (Unit {0}) × Writer → Stream
closed (ok u, w) = record { entries = w.entries; footer = true; error = none }
closed (err e, w) = record { entries = w.entries; footer = false; error = some e }

-- The deferred function of the goroutine. An error closes the pipe before the writer.
finished : Result (Unit {0}) × Writer → Stream
unfolding flush closed
finished (ok u, w) = closed (flush w)
finished (err e, w) = record { entries = w.entries; footer = false; error = some e }

unfoldable pub start_tar : List File → Stream
unfolding tar_files finished
start_tar fs = finished (tar_files fs (record { entries = []; left = 0 }))

-- The struct `lazyTar`
pub record LazyTar : Type 0 where
  pub rc : Option Stream
  pub fs : List File

-- `Tar`
unfoldable pub tar : List File → LazyTar
tar fs = record { rc = none; fs = fs }

-- The stream that a `Read` reads from, which the first one starts.
unfoldable pub read : LazyTar → Stream × LazyTar
unfolding start_tar
read l =
    let s : Stream = elim l.rc [ none ↦ start_tar l.fs | some rc ↦ rc ] in
    (s, record l { rc = some s })
