-- ===== src/Atomic/Files.antt =====
-- pkg/atomic/files.go: files that are written to a temporary file and renamed.
pub mod Outcomes
use jitdi.Base.{ℕ, Bytes}
use jitdi.Exec.{Result, ok, err, ◌>>=◌, ◌>>◌, try, pure, lift, nothing}
use jitdi.Disk.{M, touch, create_temp, copy, rename}

-- The struct `WriteCloser`, its file by its number.
pub record WriteCloser : Type 0 where
  pub f : ℕ
  pub path : Bytes

-- `WriteCloser.Close`: the error of closing the file is dropped, that of the renaming returned.
unfoldable pub close : WriteCloser → M (Unit {0})
unfolding touch rename
close a = try touch (λ _. rename a.f a.path)

-- What follows `f.Chmod`: where it failed, the file is closed and left.
after_chmod : ℕ → Bytes → Result (Unit {0}) → M WriteCloser
after_chmod f file (ok _) = pure (record { f = f; path = file })
after_chmod f file (err e) = try touch (λ _. lift (err e))

unfoldable pub open_file_with_writer : Bytes → M WriteCloser
unfolding touch create_temp after_chmod
open_file_with_writer file = do touch; f ← create_temp; try touch (after_chmod f file)

-- The deferred `Close`, whose error nobody reads, and then the result of the body.
unfoldable pub write_file_with_reader : Bytes → Bytes → M (Unit {0})
unfolding open_file_with_writer copy close
write_file_with_reader file contents = do
  f ← open_file_with_writer file
  try (copy f.f contents) (λ r. try (close f) (λ _. lift r))

unfoldable pub write_file : Bytes → Bytes → M (Unit {0})
unfolding write_file_with_reader
write_file file contents = write_file_with_reader file contents
