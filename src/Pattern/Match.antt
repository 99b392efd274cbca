-- ===== src/Pattern/Match.antt =====
-- pkg/pattern/pattern.go: `matchSegments`.
pub mod Leftmost
use jitdi.Base.{
  ◌≡◌, refl, Bool, true, false, Option, none, some, List, [], ◌∷◌, if◌then◌else◌, is_empty, Bytes,
  strip_prefix, has_prefix,
}
use jitdi.Pattern.Parse.{Segment, literal, wildcard}
use jitdi.Pattern.Params.{Params, insert}

-- The field `s` of a segment, a literal or a parameter's name.
abbrev pub text : Segment → Bytes
text (literal t) = t
text (wildcard n) = n

-- `for end < len(s) && !strings.HasPrefix(s[end:], nextSeg.s) { end++ }`: the text passed over and
-- what is left.
unfoldable pub split_before : Bytes → Bytes → Bytes × Bytes
unfolding has_prefix
split_before stop [] = ([], [])
split_before stop (c ∷ s) =
    let (before, rest) = split_before stop s in
    if has_prefix (c ∷ s) stop then ([], c ∷ s) else (c ∷ before, rest)

-- The loop over the segments, `s` being `s[off:]`. The map is `nil` where a literal fails.
unfoldable pub match_loop : List Segment → Bytes → Params → Option Params × Bool
unfolding insert split_before strip_prefix
match_loop [] s params = (some params, is_empty s)
match_loop (literal t ∷ segs) s params = elim (strip_prefix t s) [
  | none ↦ (none, false)
  | some rest ↦ match_loop segs rest params
]
match_loop (wildcard n ∷ []) s params = (some (insert n s params), true)
match_loop (wildcard n ∷ next ∷ segs) s params =
    let (value, rest) = split_before (text next) s in
    match_loop (next ∷ segs) rest (insert n value params)

unfoldable pub match_segments : List Segment → Bytes → Option Params × Bool
unfolding match_loop
match_segments segs s = match_loop segs s []
