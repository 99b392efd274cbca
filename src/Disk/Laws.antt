-- ===== src/Disk/Laws.antt =====
-- Rules for what the calls of a disk ensure, under every schedule of faults.
use jitdi.Base.{ℕ, ◌≡◌, refl, List, [], arith, Bytes, insert, Option-cases, inl, inr}
use jitdi.Exec.{Error, Result, ok, err, continue, ◌>>=◌, try, lift}
use jitdi.Disk.{Disk, M, touch, create_temp, copy, rename, read, next_fault}

-- From a disk with `P`, the result and the disk afterwards satisfy `Q`.
abbrev pub Ensures : {A : Type 0} → (Disk → Type 0) → M A → (Result A → Disk → Type 0) → Type 0
Ensures P m Q = (d : Disk) → P d → Q (m d).0 (m d).1

module _ {A B : Type 0} (P : Disk → Type 0) (R : Result A → Disk → Type 0)
    (Q : Result B → Disk → Type 0) where
  continue-Ensures :
      (f : A → M B)
      → ((a : A) → Ensures (R (ok a)) (f a) Q)
      → ((e : Error) (d : Disk) → R (err e) d → Q (err e) d)
      → (r : Result A) (d : Disk) → R r d
      → Q (continue f (r, d)).0 (continue f (r, d)).1
  continue-Ensures f hf he (ok a) d h = hf a d h
  continue-Ensures f hf he (err e) d h = he e d h

  pub bind-Ensures :
      (m : M A) (f : A → M B)
      → Ensures P m R
      → ((a : A) → Ensures (R (ok a)) (f a) Q)
      → ((e : Error) (d : Disk) → R (err e) d → Q (err e) d)
      → Ensures P (m >>= f) Q
  bind-Ensures m f hm hf he d h = continue-Ensures f hf he (m d).0 (m d).1 (hm d h)

  pub try-Ensures :
      (m : M A) (f : Result A → M B)
      → Ensures P m R
      → ((r : Result A) → Ensures (R r) (f r) Q)
      → Ensures P (try m f) Q
  try-Ensures m f hm hf d h = hf (m d).0 (m d).1 (hm d h)

module _ {A B : Type 0} (P : Disk → Type 0) (Q : Result B → Disk → Type 0) where
  pub lift-Ensures :
      (r : Result A) (f : A → M B)
      → ((a : A) → r ≡ ok a → Ensures P (f a) Q)
      → ((e : Error) (d : Disk) → P d → Q (err e) d)
      → Ensures P (lift r >>= f) Q
  lift-Ensures (ok a) f hf he d h = hf a refl d h
  lift-Ensures (err e) f hf he d h = he e d h

-- What depends on the files alone, and on one temporary file with it.
module _ (F : List (Bytes × Bytes) → Type 0) where
  abbrev pub OnFiles : Disk → Type 0
  OnFiles d = F d.files

  abbrev pub OnTemp : ℕ → Bytes → Disk → Type 0
  OnTemp t s d = F d.files × (d.temps t ≡ s)

  pub touch-OnFiles : Ensures OnFiles touch (λ _. OnFiles)
  unfolding touch
  touch-OnFiles d h = ground arith

  pub touch-OnTemp : (t : ℕ) (s : Bytes) → Ensures (OnTemp t s) touch (λ _. OnTemp t s)
  unfolding touch
  touch-OnTemp t s d h = ground arith

  abbrev pub Created : Result ℕ → Disk → Type 0
  Created (ok t) = OnTemp t []
  Created (err e) = OnFiles

  pub create_temp-Created : Ensures OnFiles create_temp Created
  unfolding create_temp
  create_temp-Created d h = ground arith

  -- After a copy to an empty temporary file.
  abbrev pub Copied : ℕ → Bytes → Result (Unit {0}) → Disk → Type 0
  Copied t s (ok _) = OnTemp t s
  Copied t s (err e) = OnFiles

  pub copy-Copied : (t : ℕ) (s : Bytes) → Ensures (OnTemp t []) (copy t s) (Copied t s)
  unfolding copy
  copy-Copied t s d h = ground arith

  pub read-OnFiles : (p : Bytes) → Ensures OnFiles (read p) (λ _. OnFiles)
  unfolding read
  read-OnFiles p d h = ground arith

  pub rename-OnFiles :
      (t : ℕ) (p s : Bytes)
      → ((files : List (Bytes × Bytes)) → F files → F (insert p s files))
      → Ensures (OnTemp t s) (rename t p) (λ _. OnFiles)
  unfolding rename
  rename-OnFiles t p s keep d h = elim (Option-cases (next_fault d.faults).0) [
    | inl e ↦ rw e (rw h.1 (keep d.files h.0))
    | inr (n, e) ↦ rw e h.0
  ]

  pub copy-OnFiles : (t : ℕ) (s : Bytes) → Ensures OnFiles (copy t s) (λ _. OnFiles)
  unfolding copy
  copy-OnFiles t s d h = ground arith

  pub create_temp-OnFiles : Ensures OnFiles create_temp (λ _. OnFiles)
  unfolding create_temp
  create_temp-OnFiles d h = ground arith

  -- Whatever the temporary file holds.
  pub rename_any-OnFiles :
      (t : ℕ) (p : Bytes)
      → ((s : Bytes) (files : List (Bytes × Bytes)) → F files → F (insert p s files))
      → Ensures OnFiles (rename t p) (λ _. OnFiles)
  rename_any-OnFiles t p keep d h = rename-OnFiles t p (d.temps t) (keep (d.temps t)) d (h, refl)
