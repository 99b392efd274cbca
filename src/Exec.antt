-- ===== src/Exec.antt =====
-- Actions over a state that may return an error. What was done before the error stays done.
pub mod Pure
pub mod Outcome
use jitdi.Base.{ℕ}

-- `fault` is an error of the operating system but "not exist"; `failed` is one that another
-- component returned; `write_too_long` and `missed_bytes` are those of archive/tar; the rest are the
-- program's own.
pub data Error : Type 0 where
  fault not_exist size_is_zero unknown_mutate not_computed bad_link : Error
  write_too_long missed_bytes short_write bad_status unknown_length unexpected_version
        unexpected_kind :
      Error
  failed : ℕ → Error

pub data Result (A : Type 0) : Type 0 where
  ok : A → Result A
  err : Error → Result A

abbrev pub Exec : Type 0 → Type 0 → Type 0
Exec S A = S → Result A × S

module _ {S A B : Type 0} where
  abbrev pub continue : (A → Exec S B) → Result A × S → Result B × S
  continue f (ok a, d) = f a d
  continue f (err e, d) = (err e, d)

  -- What comes next if the call returned no error.
  infixl 5 ◌>>=◌ ◌>>◌
  abbrev pub ◌>>=◌ : Exec S A → (A → Exec S B) → Exec S B
  ◌>>=◌ m f d = continue f (m d)

  abbrev pub ◌>>◌ : Exec S A → Exec S B → Exec S B
  ◌>>◌ m k d = continue (λ _. k) (m d)

  abbrev pub attempt : (Result A → Exec S B) → Result A × S → Result B × S
  attempt f (r, d) = f r d

  -- What comes next whether or not the call returned an error.
  abbrev pub try : Exec S A → (Result A → Exec S B) → Exec S B
  try m f d = attempt f (m d)

module _ {S A : Type 0} where
  abbrev pub pure : A → Exec S A
  pure a d = (ok a, d)

  abbrev pub raise : Error → Exec S A
  raise e d = (err e, d)

  -- The value of another component, or its error.
  abbrev pub lift : Result A → Exec S A
  lift r d = (r, d)

abbrev pub nothing : Unit {0}
nothing = tt
