-- ===== src/Pattern/Less/Laws.antt =====
-- pkg/pattern/pattern.go: `patternLess` orders the patterns whose segments alternate.
use jitdi.Base.{
  ◌<◌, ◌≡◌, ◌≢◌, refl, sym, ◌∙◌, Bool, true, false, none, some, List, [], ◌∷◌, arith, length, ◌==◌,
  ltb, if◌then◌else◌, Bytes,
}
use jitdi.Pattern.Parse.{Segment, literal, wildcard}
use jitdi.Pattern.Less.{is_wildcard, literals_less, rest_less, first_less, pattern_less}

-- The comparison does not panic on patterns with a segment.
pub pattern_less-ne-none : (p q : List Segment) → p ≢ [] → q ≢ [] → pattern_less p q ≢ none
unfolding pattern_less first_less
pattern_less-ne-none [] q h k = absurd (h refl)
pattern_less-ne-none (x ∷ p) [] h k = absurd (k refl)
pattern_less-ne-none (x ∷ p) (y ∷ q) h k = ground arith

literals_less_asym :
    (p q : List Segment) → literals_less p q ≡ some true → literals_less q p ≡ some false
unfolding literals_less
literals_less_asym [] q h = cc
literals_less_asym (literal t ∷ p) [] h = cc
literals_less_asym (wildcard t ∷ p) [] h = cc
literals_less_asym (literal t ∷ p) (literal u ∷ q) h = ground (arith, literals_less_asym p q)
literals_less_asym (literal t ∷ p) (wildcard u ∷ q) h = literals_less_asym p q h
literals_less_asym (wildcard t ∷ p) (literal u ∷ q) h = literals_less_asym p q h
literals_less_asym (wildcard t ∷ p) (wildcard u ∷ q) h = literals_less_asym p q h

literals_less-none : (p q : List Segment) → literals_less p q ≡ none → literals_less q p ≡ none
unfolding literals_less
literals_less-none [] [] h = refl
literals_less-none [] (literal u ∷ q) h = refl
literals_less-none [] (wildcard u ∷ q) h = refl
literals_less-none (literal t ∷ p) [] h = refl
literals_less-none (wildcard t ∷ p) [] h = refl
literals_less-none (literal t ∷ p) (literal u ∷ q) h = ground (arith, literals_less-none p q)
literals_less-none (literal t ∷ p) (wildcard u ∷ q) h = literals_less-none p q h
literals_less-none (wildcard t ∷ p) (literal u ∷ q) h = literals_less-none p q h
literals_less-none (wildcard t ∷ p) (wildcard u ∷ q) h = literals_less-none p q h

rest_less_asym : (p q : List Segment) → rest_less p q ≡ true → rest_less q p ≡ false
unfolding rest_less
rest_less_asym p q h = ground (arith, literals_less_asym p q, literals_less-none p q)

-- Of two patterns, at most one is to be tried before the other.
pub pattern_less_asym :
    (p q : List Segment) → pattern_less p q ≡ some true → pattern_less q p ≡ some false
unfolding pattern_less first_less
pattern_less_asym [] [] h = cc
pattern_less_asym [] (y ∷ q) h = ground arith
pattern_less_asym (x ∷ p) [] h = ground arith
pattern_less_asym (x ∷ p) (y ∷ q) h = ground (arith, rest_less_asym (x ∷ p) (y ∷ q))

-- Literals and parameters by turns, a parameter first if `b`.
abbrev pub AlternateFrom : Bool → List Segment → Type 0
AlternateFrom b [] = Unit
AlternateFrom b (literal t ∷ p) = (b ≡ false) × AlternateFrom true p
AlternateFrom b (wildcard n ∷ p) = (b ≡ true) × AlternateFrom false p

-- A pattern with a segment, in which no two parameters and no two literals touch.
abbrev pub IsAlternating : List Segment → Type 0
IsAlternating [] = ⊥
IsAlternating (g ∷ p) = AlternateFrom (is_wildcard g) (g ∷ p)

rest_less-literal :
    (t u : Bytes) (p q : List Segment)
    → rest_less (literal t ∷ p) (literal u ∷ q)
      ≡ (if length t == length u then rest_less p q else ltb (length u) (length t))
unfolding rest_less literals_less
rest_less-literal t u p q = ground arith

rest_less-wildcard :
    (t u : Bytes) (p q : List Segment) → rest_less (wildcard t ∷ p) (wildcard u ∷ q) ≡ rest_less p q
unfolding rest_less literals_less
rest_less-wildcard t u p q = ground arith

rest_less_nil : (p : List Segment) → rest_less [] p ≡ false
unfolding rest_less literals_less
rest_less_nil [] = refl
rest_less_nil (literal t ∷ p) = ground arith
rest_less_nil (wildcard t ∷ p) = ground arith

rest_less_end : (g : Segment) (p : List Segment) → rest_less (g ∷ p) [] ≡ true
unfolding rest_less literals_less
rest_less_end (literal t) p = ground arith
rest_less_end (wildcard t) p = ground arith

rest_less_negtrans :
    (b : Bool) (p q r : List Segment)
    → AlternateFrom b p
    → AlternateFrom b q
    → AlternateFrom b r
    → rest_less p q ≡ false
    → rest_less q r ≡ false
    → rest_less p r ≡ false
rest_less_negtrans b [] q r a a' a'' h k = rest_less_nil r
rest_less_negtrans b (x ∷ p) [] r a a' a'' h k = cc (rest_less_end x p)
rest_less_negtrans b (x ∷ p) (y ∷ q) [] a a' a'' h k = cc (rest_less_end y q)
rest_less_negtrans b (literal t ∷ p) (literal u ∷ q) (literal v ∷ r) a a' a'' h k = ground (
  arith,
  rest_less-literal t u p q,
  rest_less-literal u v q r,
  rest_less-literal t v p r,
  rest_less_negtrans true p q r a.1 a'.1 a''.1,
)
rest_less_negtrans b (wildcard t ∷ p) (wildcard u ∷ q) (wildcard v ∷ r) a a' a'' h k =
    rest_less-wildcard t v p r
    ∙ rest_less_negtrans false p q r a.1 a'.1 a''.1 (sym (rest_less-wildcard t u p q) ∙ h)
        (sym (rest_less-wildcard u v q r) ∙ k)
rest_less_negtrans b (literal t ∷ p) (wildcard u ∷ q) (z ∷ r) a a' a'' h k = cc
rest_less_negtrans b (wildcard t ∷ p) (literal u ∷ q) (z ∷ r) a a' a'' h k = cc
rest_less_negtrans b (literal t ∷ p) (literal u ∷ q) (wildcard v ∷ r) a a' a'' h k = cc
rest_less_negtrans b (wildcard t ∷ p) (wildcard u ∷ q) (literal v ∷ r) a a' a'' h k = cc

-- Among patterns of alternating segments, "not before" is transitive: with the asymmetry, the
-- comparison is a strict weak order there, as sorting wants.
pub pattern_less_negtrans :
    (p q r : List Segment)
    → IsAlternating p
    → IsAlternating q
    → IsAlternating r
    → pattern_less p q ≡ some false
    → pattern_less q r ≡ some false
    → pattern_less p r ≡ some false
unfolding pattern_less first_less
pattern_less_negtrans [] q r a a' a'' h k = absurd a
pattern_less_negtrans (x ∷ p) [] r a a' a'' h k = absurd a'
pattern_less_negtrans (x ∷ p) (y ∷ q) [] a a' a'' h k = absurd a''
pattern_less_negtrans (literal t ∷ p) (literal u ∷ q) (literal v ∷ r) a a' a'' h k =
    ground
      (arith, rest_less_negtrans false (literal t ∷ p) (literal u ∷ q) (literal v ∷ r) a a' a'')
pattern_less_negtrans (wildcard t ∷ p) (wildcard u ∷ q) (wildcard v ∷ r) a a' a'' h k =
    ground
      (arith, rest_less_negtrans true (wildcard t ∷ p) (wildcard u ∷ q) (wildcard v ∷ r) a a' a'')
pattern_less_negtrans (literal t ∷ p) (wildcard u ∷ q) (z ∷ r) a a' a'' h k = ground arith
pattern_less_negtrans (wildcard t ∷ p) (literal u ∷ q) (z ∷ r) a a' a'' h k = ground arith
pattern_less_negtrans (literal t ∷ p) (literal u ∷ q) (wildcard v ∷ r) a a' a'' h k = ground arith
pattern_less_negtrans (wildcard t ∷ p) (wildcard u ∷ q) (literal v ∷ r) a a' a'' h k = ground arith

-- Where two parameters touch, the comparison has cycles: with a longer literal `u` and a shorter one
-- `v`, each of three patterns is to be tried before the next.
pattern_less_cycle :
    (t u v w n m : Bytes)
    → length v < length u
    → (pattern_less
          (literal t ∷ wildcard n ∷ literal u ∷ [])
          (literal t ∷ wildcard n ∷ literal v ∷ wildcard m ∷ literal w ∷ [])
        ≡ some true)
      × (pattern_less
            (literal t ∷ wildcard n ∷ literal v ∷ wildcard m ∷ literal w ∷ [])
            (literal t ∷ wildcard n ∷ wildcard m ∷ literal w ∷ [])
          ≡ some true)
      × (pattern_less
            (literal t ∷ wildcard n ∷ wildcard m ∷ literal w ∷ [])
            (literal t ∷ wildcard n ∷ literal u ∷ [])
          ≡ some true)
unfolding pattern_less
pattern_less_cycle t u v w n m h = ground arith
