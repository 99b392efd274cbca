-- ===== src/Atomic/Tests.antt =====
-- pkg/atomic: runs of the definitions and instances of the theorems.
use jitdi.Base.{ℕ, Option, ◌≡◌, refl, false, none, some, List, [], ◌∷◌, codes, lookup, bytes_eq}
use jitdi.Exec.{ok, err, fault}
use jitdi.Disk.{Disk, taken}
use jitdi.Atomic.Maps.{SyncMap, swap}
use jitdi.Atomic.Files.{write_file}
use jitdi.Atomic.Files.Outcomes.{write_file_elsewhere, write_file_partial, write_file_unnoticed}

abbrev two_entries : SyncMap ℕ
two_entries = (codes "a", 1) ∷ (codes "b", 2) ∷ []

-- An absent key: the new value comes back, and `false`.
swaps_absent :
    swap (codes "c") 3 two_entries
    ≡ ((3, false), (codes "a", 1) ∷ (codes "b", 2) ∷ (codes "c", 3) ∷ [])
unfolding swap
swaps_absent = refl

abbrev old_disk : List (Option ℕ) → Disk
old_disk faults = record {
  files = (codes "/m", codes "old") ∷ (codes "/n", codes "other") ∷ [];
  temps = λ t. [];
  next_temp = 0;
  faults = faults;
}

differs : bytes_eq (codes "/m") (codes "/n") ≡ false
unfolding bytes_eq
differs = refl

write_file_elsewhere_example :
    lookup
      (codes "/n")
      (write_file (codes "/m") (codes "new") (old_disk (none ∷ some 0 ∷ []))).1.files
    ≡ lookup (codes "/n") (old_disk (none ∷ some 0 ∷ [])).files
write_file_elsewhere_example =
    write_file_elsewhere (codes "/m") (codes "new") (codes "/n") (old_disk (none ∷ some 0 ∷ []))
      differs

write_file_partial_example :
    ((write_file (codes "/m") (codes "new") (old_disk (none ∷ none ∷ none ∷ some 1 ∷ []))).0
      ≡ err fault)
    × (lookup
          (codes "/m")
          (write_file
            (codes "/m")
            (codes "new")
            (old_disk (none ∷ none ∷ none ∷ some 1 ∷ []))).1.files
        ≡ some (taken 1 (codes "new")))
write_file_partial_example =
    write_file_partial (codes "/m") (codes "new") 1 (old_disk (none ∷ none ∷ none ∷ some 1 ∷ []))
      refl

write_file_unnoticed_example :
    ((write_file
        (codes "/m")
        (codes "new")
        (old_disk (none ∷ none ∷ none ∷ none ∷ none ∷ some 0 ∷ []))).0
      ≡ ok tt)
    × ((write_file
          (codes "/m")
          (codes "new")
          (old_disk (none ∷ none ∷ none ∷ none ∷ none ∷ some 0 ∷ []))).1.files
        ≡ (old_disk (none ∷ none ∷ none ∷ none ∷ none ∷ some 0 ∷ [])).files)
write_file_unnoticed_example =
    write_file_unnoticed (codes "/m") (codes "new") 0
      (old_disk (none ∷ none ∷ none ∷ none ∷ none ∷ some 0 ∷ [])) refl
