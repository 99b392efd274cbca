-- ===== src/Disk.antt =====
-- The calls of Go's `os` and `io` that the program makes, on a disk that may fail at any call.
-- Each call takes the next entry of `faults`: `none`, or no entry left, lets it succeed; `some n` makes
-- it fail, a copy after `n` bytes and any other call with no effect. Directories are not recorded:
-- each file is created behind a `MkdirAll` of its directory. A temporary file, whose name `CreateTemp`
-- chooses apart from all others, is known by a number until it is renamed.
pub mod Laws
use jitdi.Exec.{Exec, Result, ok, err, fault, not_exist, nothing}
use jitdi.Base.{
  ℕ, zero, suc, ◌≡◌, refl, Bool, true, false, Option, none, some, List, [], ◌∷◌, ◌++◌, Bytes,
  lookup, insert, remove, if◌then◌else◌, ◌==◌,
}

pub record Disk : Type 0 where
  pub files : List (Bytes × Bytes)
  pub temps : ℕ → Bytes
  pub next_temp : ℕ
  pub faults : List (Option ℕ)

abbrev pub M : Type 0 → Type 0
M A = Exec Disk A

-- The next entry of the schedule, and the disk without it.
unfoldable pub next_fault : List (Option ℕ) → Option ℕ × List (Option ℕ)
next_fault [] = (none, [])
next_fault (f ∷ faults) = (f, faults)

abbrev faulty : {A : Type 0} → Option ℕ → A → Disk → Disk → Result A × Disk
faulty none a done undone = (ok a, done)
faulty (some n) a done undone = (err fault, undone)

-- A call that makes `done` of the disk, or nothing.
abbrev call : {A : Type 0} → A → (Disk → Disk) → M A
call a done d =
    let (f, faults) = next_fault d.faults in
    let d' = record d { faults = faults } in faulty f a (done d') d'

-- `os.MkdirAll`, `Chmod`, `Close`: nothing that is recorded changes.
unfoldable pub touch : M (Unit {0})
unfolding next_fault
touch = call nothing (λ d. d)

-- `os.CreateTemp`
unfoldable pub create_temp : M ℕ
unfolding next_fault
create_temp d =
    call d.next_temp
      (λ d. record d {
        temps = λ i. if d.next_temp == i then [] else d.temps i;
        next_temp = suc d.next_temp;
      })
      d

unfoldable pub taken : ℕ → Bytes → Bytes
taken zero s = []
taken (suc n) [] = []
taken (suc n) (c ∷ s) = c ∷ taken n s

abbrev append_temp : ℕ → Bytes → Disk → Disk
append_temp t s d = record d { temps = λ i. if t == i then d.temps t ++ s else d.temps i }

abbrev copied : Option ℕ → ℕ → Bytes → Disk → Result (Unit {0}) × Disk
copied none t s d = (ok nothing, append_temp t s d)
copied (some n) t s d = (err fault, append_temp t (taken n s) d)

-- `io.Copy` of `s` to the end of a temporary file; where it fails, a part of `s` is written.
unfoldable pub copy : ℕ → Bytes → M (Unit {0})
unfolding next_fault taken
copy t s d = let (f, faults) = next_fault d.faults in copied f t s (record d { faults = faults })

-- `os.Rename` of a temporary file.
unfoldable pub rename : ℕ → Bytes → M (Unit {0})
unfolding next_fault insert
rename t path d = call nothing (λ d. record d { files = insert path (d.temps t) d.files }) d

abbrev found : Option ℕ → Option Bytes → Disk → Result Bytes × Disk
found none none d = (err not_exist, d)
found none (some s) d = (ok s, d)
found (some n) o d = (err fault, d)

-- `os.Open`, `os.ReadFile`, `os.Stat`: the contents, of which `Stat` gives the length.
unfoldable pub read : Bytes → M Bytes
unfolding next_fault lookup
read path d =
    let (f, faults) = next_fault d.faults in
    found f (lookup path d.files) (record d { faults = faults })
