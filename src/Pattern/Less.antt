-- ===== src/Pattern/Less.antt =====
-- pkg/pattern/pattern.go: `patternLess`, the order in which rules are tried.
pub mod Laws
use jitdi.Base.{
  ℕ, Bool, true, false, Option, none, some, List, [], ◌∷◌, not, ◌&&◌, ◌==◌, ltb, if◌then◌else◌,
  length, Bytes,
}
use jitdi.Pattern.Parse.{Segment, literal, wildcard}

-- The field `wildcard`.
abbrev pub is_wildcard : Segment → Bool
is_wildcard (literal t) = false
is_wildcard (wildcard n) = true

-- The loop over the common positions: the first two literals of different lengths decide, the longer
-- one first. `none` where none does.
unfoldable pub literals_less : List Segment → List Segment → Option Bool
literals_less (literal t ∷ p1) (literal u ∷ p2) =
    let later = literals_less p1 p2 in
    if length t == length u then later else some (ltb (length u) (length t))
literals_less (literal t ∷ p1) (wildcard n ∷ p2) = literals_less p1 p2
literals_less (wildcard n ∷ p1) (g ∷ p2) = literals_less p1 p2
literals_less _ _ = none

-- The part of `patternLess` from the loop on.
unfoldable pub rest_less : List Segment → List Segment → Bool
unfolding literals_less
rest_less p1 p2 = elim (literals_less p1 p2) [ some b ↦ b | none ↦ ltb (length p2) (length p1) ]

-- The part of `patternLess` from the test of the first segments on; `none` is the panic of indexing
-- an empty slice.
unfoldable pub first_less : List Segment → List Segment → Option Bool
unfolding rest_less
first_less (g ∷ p1) (h ∷ p2) =
    if is_wildcard g
    then if is_wildcard h then some (rest_less (g ∷ p1) (h ∷ p2)) else some false
    else if is_wildcard h
    then some true
    else some (rest_less (g ∷ p1) (h ∷ p2))
first_less _ _ = none

unfoldable pub pattern_less : List Segment → List Segment → Option Bool
unfolding first_less
pattern_less p1 p2 =
    if length p1 == length p2
    then first_less p1 p2
    else if length p1 == 1
    then some true
    else if length p2 == 1
    then some false
    else first_less p1 p2
