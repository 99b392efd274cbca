-- ===== src/Pattern/Parse/Shape.antt =====
-- pkg/pattern/pattern.go: what the segments of a pattern look like, and the text that they stand for.
use jitdi.Base.{◌≡◌, ◌≢◌, refl, List, [], ◌∷◌, ◌++◌, append_assoc, Bytes, Lacks}
use jitdi.Pattern.Parse.{Segment, literal, wildcard, open_brace, close_brace}

-- The text of one segment, the parameter in its braces.
abbrev pub render_segment : Segment → Bytes
render_segment (literal t) = t
render_segment (wildcard n) = open_brace ∷ n ++ close_brace ∷ []

abbrev pub render : List Segment → Bytes
render [] = []
render (g ∷ segs) = render_segment g ++ render segs

pub render-append : (xs ys : List Segment) → render (xs ++ ys) ≡ render xs ++ render ys
render-append [] ys = refl
render-append (x ∷ xs) ys = simp (render-append xs ys, append_assoc)

abbrev pub StartsNoLiteral : List Segment → Type 0
StartsNoLiteral [] = Unit
StartsNoLiteral (literal t ∷ segs) = ⊥
StartsNoLiteral (wildcard n ∷ segs) = Unit

-- No segment is empty, a literal holds no '{', a parameter no '}', and no two literals touch.
abbrev pub IsWellFormed : List Segment → Type 0
IsWellFormed [] = Unit
IsWellFormed (literal t ∷ segs) =
    (t ≢ []) × Lacks open_brace t × StartsNoLiteral segs × IsWellFormed segs
IsWellFormed (wildcard n ∷ segs) = (n ≢ []) × Lacks close_brace n × IsWellFormed segs
