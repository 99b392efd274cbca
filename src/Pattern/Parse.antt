-- ===== src/Pattern/Parse.antt =====
-- pkg/pattern/pattern.go: `segment`, `parseSegments` and `parsePattern`.
pub mod Shape
pub mod Render
pub mod Total
use jitdi.Base.{
  ℕ, zero, suc, Bool, List, [], ◌∷◌, ◌++◌, if◌then◌else◌, is_empty, length, Bytes, codes, break_at,
}

-- The struct `segment`, split by its flag `wildcard`.
pub data Segment : Type 0 where
  literal : Bytes → Segment
  wildcard : Bytes → Segment

pub data ParseError : Type 0 where
  unmatched_brace empty_braces out_of_fuel : ParseError

pub data Parsed : Type 0 where
  ok : List Segment → Parsed
  err : ParseError → Parsed

abbrev pub open_brace : ℕ
open_brace = b'{'

abbrev pub close_brace : ℕ
close_brace = b'}'

-- `if off > start { segs = append(segs, segment{s: s[start:off]}) }`
unfoldable pub add_literal : List Segment → Bytes → List Segment
add_literal segs text = if is_empty text then segs else segs ++ literal text ∷ []

-- From the '}' on: the two refusals, or the parameter and the next round.
unfoldable pub close_param : (Bytes → List Segment → Parsed) → List Segment → Bytes → Bytes → Parsed
close_param next segs name [] = err unmatched_brace
close_param next segs name (c ∷ rest) =
    let more = next rest (segs ++ wildcard name ∷ []) in
    if is_empty name then err empty_braces else more

-- From the '{' on: nothing is left, or the scan for the '}'.
unfoldable pub open_param : (Bytes → List Segment → Parsed) → List Segment → Bytes → Parsed
unfolding close_param
open_param next segs [] = ok segs
open_param next segs (c ∷ body) =
    let (name, rest) = break_at close_brace body in close_param next segs name rest

-- The outer loop, a round for each literal with the parameter behind it.
unfoldable pub parse_loop : ℕ → Bytes → List Segment → Parsed
parse_loop f [] segs = ok segs
parse_loop zero (c ∷ s) segs = err out_of_fuel
parse_loop (suc f) (c ∷ s) segs =
    let (text, rest) = break_at open_brace (c ∷ s) in
    open_param (parse_loop f) (add_literal segs text) rest

unfoldable pub parse_segments : Bytes → Parsed
unfolding parse_loop open_param add_literal break_at
parse_segments s = parse_loop (length s) s []

-- `strings.Index(s, ":") == -1`
unfoldable pub lacks_colon : Bytes → Bool
unfolding break_at
lacks_colon s = is_empty (break_at b':' s).1

unfoldable pub parse_pattern : Bytes → Parsed
unfolding lacks_colon parse_segments
parse_pattern s = parse_segments (if lacks_colon s then s ++ codes ":latest" else s)
