-- ===== src/Pattern/Params.antt =====
-- pkg/pattern: the map from parameter names to values that a match fills, and its use as a
-- substitution (pkg/pattern/action.go: `replaceWithParams`).
pub mod Fill
unfoldable pub use jitdi.Base.{lookup, insert}
pub use jitdi.Base.{lookup-insert}
use jitdi.Base.{
  ℕ, zero, suc, ◌-◌, ◌≡◌, refl, Bool, true, false, Option, none, some, List, [], ◌∷◌, ◌++◌, arith,
  if◌then◌else◌, Bytes, bytes_eq, bytes_eq_iff, strip_prefix, length,
}

-- A Go map as the list of its entries, in the order in which a `range` visits them.
abbrev pub Params : Type 0
Params = List (Bytes × Bytes)

-- `strings.ReplaceAll` for a text `old` that is not empty: `skip` bytes of an occurrence are still to
-- be passed over.
unfoldable pub replace_from : Bytes → Bytes → ℕ → Bytes → Bytes
unfolding strip_prefix
replace_from old new skip [] = []
replace_from old new (suc skip) (c ∷ s) = replace_from old new skip s
replace_from old new zero (c ∷ s) = elim (strip_prefix old (c ∷ s)) [
  | some _ ↦ new ++ replace_from old new (length old - 1) s
  | none ↦ c ∷ replace_from old new zero s
]

unfoldable pub replace_all : Bytes → Bytes → Bytes → Bytes
unfolding replace_from
replace_all s old new = replace_from old new 0 s

-- `"{" + k + "}"`
abbrev pub braced : Bytes → Bytes
braced k = b'{' ∷ k ++ b'}' ∷ []

unfoldable pub replace_with_params : Bytes → Params → Bytes
unfolding replace_all
replace_with_params s [] = s
replace_with_params s ((k, v) ∷ params) = replace_with_params (replace_all s (braced k) v) params
