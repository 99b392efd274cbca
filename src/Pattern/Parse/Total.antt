-- ===== src/Pattern/Parse/Total.antt =====
-- pkg/pattern/pattern.go: `parseSegments` ends on every text, and when it refuses.
use jitdi.Base.{
  ℕ, zero, suc, ◌+◌, ◌≤◌, ◌≢◌, List, [], ◌∷◌, ◌++◌, arith, length, length-append, Bytes, break_at,
  break_at-append, Bool-cases, inl, inr, ap, codes,
}
use jitdi.Pattern.Parse.{
  Segment, wildcard, Parsed, ok, err, out_of_fuel, open_brace, close_brace, add_literal,
  close_param, open_param, parse_loop, parse_segments, parse_pattern, lacks_colon,
}
use jitdi.Pattern.Parse.Render.{parse_segments_iff}

break_at_shorter : (c : ℕ) (s : Bytes) → length (break_at c s).1 ≤ length s
break_at_shorter c s =
    omega (arith, length-append (break_at c s).0 (break_at c s).1, ap length (break_at-append c s))

open_param-ne-fuel :
    (next : Bytes → List Segment → Parsed) (segs : List Segment) (rest : Bytes)
    → ((s : Bytes) (more : List Segment)
        → length s + 2 ≤ length rest
        → next s more ≢ err out_of_fuel)
    → open_param next segs rest ≢ err out_of_fuel
unfolding open_param close_param
open_param-ne-fuel next segs [] ih = λ e. cc
open_param-ne-fuel next segs (c ∷ body) ih =
    go (break_at close_brace body).0 (break_at close_brace body).1
      (break_at_shorter close_brace body)
  where
    go :
        (name rest : Bytes)
        → length rest ≤ length body
        → close_param next segs name rest ≢ err out_of_fuel
    go name [] h = λ e. cc
    go [] (d ∷ rest) h = λ e. cc
    go (x ∷ name) (d ∷ rest) h = ih rest (segs ++ wildcard (x ∷ name) ∷ []) (omega arith)

parse_loop-ne-fuel :
    (f : ℕ) (s : Bytes) (segs : List Segment) → length s ≤ f → parse_loop f s segs ≢ err out_of_fuel
unfolding parse_loop
parse_loop-ne-fuel f [] segs h = λ e. cc
parse_loop-ne-fuel zero (c ∷ s) segs h = absurd (omega arith)
parse_loop-ne-fuel (suc f) (c ∷ s) segs h =
    open_param-ne-fuel (parse_loop f) (add_literal segs (break_at open_brace (c ∷ s)).0)
      (break_at open_brace (c ∷ s)).1
      (λ u more less.
        parse_loop-ne-fuel f u more (omega (arith, less, break_at_shorter open_brace (c ∷ s))))

-- The rounds of the model are enough for every text: the outcome is a list of segments or one of the
-- two errors that the code returns.
pub parse_segments-ne-fuel : (s : Bytes) → parse_segments s ≢ err out_of_fuel
unfolding parse_segments
parse_segments-ne-fuel s = parse_loop-ne-fuel (length s) s [] (omega arith)

parse_segments_cons-ne-nil : (c : ℕ) (s : Bytes) → parse_segments (c ∷ s) ≢ ok []
parse_segments_cons-ne-nil c s e = cc ((parse_segments_iff (c ∷ s) []).0 e).1

-- A rule's pattern has a first segment, whatever the text.
parse_pattern-ne-nil : (s : Bytes) → parse_pattern s ≢ ok []
unfolding parse_pattern
parse_pattern-ne-nil [] = λ e. cc
parse_pattern-ne-nil (c ∷ s) = elim (Bool-cases (lacks_colon (c ∷ s))) [
  | inl e ↦ rw e (parse_segments_cons-ne-nil c (s ++ codes ":latest"))
  | inr e ↦ rw e (parse_segments_cons-ne-nil c s)
]
