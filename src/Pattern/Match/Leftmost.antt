-- ===== src/Pattern/Match/Leftmost.antt =====
-- pkg/pattern/pattern.go: which texts `matchSegments` accepts, and with which parameters.
use jitdi.Base.{
  ◌≡◌, ◌≢◌, ◌↔◌, ◌⊎◌, refl, sym, ap, ◌∙◌, subst, Bool, true, false, Option, none, some, List, [],
  ◌∷◌, ◌++◌, arith, inl, inr, Bytes, strip_prefix, has_prefix, strip_prefix-append,
  strip_prefix-eq_some, Option-cases,
}
use jitdi.Pattern.Parse.{Segment, literal, wildcard}
use jitdi.Pattern.Params.{Params, insert}
use jitdi.Pattern.Match.{text, split_before, match_loop, match_segments}

-- `stop` begins nowhere inside `v`, when `rest` follows it.
abbrev pub NotWithin : Bytes → Bytes → Bytes → Type 0
NotWithin stop [] rest = Unit
NotWithin stop (c ∷ v) rest = ((u : Bytes) → c ∷ v ++ rest ≢ stop ++ u) × NotWithin stop v rest

-- `rest` is where `stop` begins, or the end of the text.
abbrev pub StopsAt : Bytes → Bytes → Type 0
StopsAt stop rest = (rest ≡ []) ⊎ ((u : Bytes) × (rest ≡ stop ++ u))

-- A text read segment by segment, each parameter as short as the next segment's text allows.
pub data Leftmost : List Segment → Bytes → Params → Type 0 where
  done : Leftmost [] [] []
  fixed :
      {t s u : Bytes} {segs : List Segment} {bs : Params}
      → u ≡ t ++ s
      → Leftmost segs s bs
      → Leftmost (literal t ∷ segs) u bs
  last : {n s : Bytes} → Leftmost (wildcard n ∷ []) s ((n, s) ∷ [])
  param :
      {n v s u : Bytes} {next : Segment} {segs : List Segment} {bs : Params}
      → u ≡ v ++ s
      → NotWithin (text next) v s
      → StopsAt (text next) s
      → Leftmost (next ∷ segs) s bs
      → Leftmost (wildcard n ∷ next ∷ segs) u ((n, v) ∷ bs)

-- The map after the assignments, in order.
abbrev pub assign : Params → Params → Params
assign m [] = m
assign m ((n, v) ∷ bs) = assign (insert n v m) bs

strip_prefix-none : (p s u : Bytes) → strip_prefix p s ≡ none → s ≢ p ++ u
strip_prefix-none p s u h e = cc (strip_prefix-append p u, ap (strip_prefix p) e)

split_before_lem :
    (stop s : Bytes)
    → (s ≡ (split_before stop s).0 ++ (split_before stop s).1)
      × NotWithin stop (split_before stop s).0 (split_before stop s).1
      × StopsAt stop (split_before stop s).1
unfolding split_before has_prefix
split_before_lem stop [] = (refl, tt, inl refl)
split_before_lem stop (c ∷ s) = elim (Option-cases (strip_prefix stop (c ∷ s))) [
  | inl e ↦ rw e (
      let (eq, within, stops) = split_before_lem stop s in
      (
        ap (λ t. c ∷ t) eq,
        ((λ u p. strip_prefix-none stop (c ∷ s) u e (ap (λ t. c ∷ t) eq ∙ p)), within),
        stops,
      ))
  | inr (u, e) ↦ rw e (refl, tt, inr (u, strip_prefix-eq_some stop (c ∷ s) u e))
]

split_before_unique :
    (stop v s : Bytes) → NotWithin stop v s → StopsAt stop s → split_before stop (v ++ s) ≡ (v, s)
unfolding split_before has_prefix
split_before_unique stop [] [] w h = refl
split_before_unique stop [] (c ∷ s) w (inl e) = cc
split_before_unique stop [] (c ∷ s) w (inr (u, e)) =
    rw (subst (λ t. strip_prefix stop t ≡ some u) (sym e) (strip_prefix-append stop u))
split_before_unique stop (c ∷ v) s w h = elim (Option-cases (strip_prefix stop (c ∷ v ++ s))) [
  | inl e ↦ rw (e, split_before_unique stop v s w.1 h)
  | inr (u, e) ↦ absurd (w.0 u (strip_prefix-eq_some stop (c ∷ v ++ s) u e))
]

rejected :
    (o : Option Params) (m q : Params)
    → ◌≡◌ {A = Option Params × Bool} (o, false) (some q, true)
    → ⊥
rejected o m q h = let e : false ≡ true = ap (λ p. p.1) h in cc

match_loop-Leftmost :
    (segs : List Segment) (s : Bytes) (m q : Params)
    → match_loop segs s m ≡ (some q, true)
    → (bs : Params) × Leftmost segs s bs × (q ≡ assign m bs)
unfolding match_loop
match_loop-Leftmost [] [] m q h = ([], done, cc)
match_loop-Leftmost [] (c ∷ s) m q h = absurd (rejected (some m) m q h)
match_loop-Leftmost (literal t ∷ segs) s m q h = elim (Option-cases (strip_prefix t s)) [
  | inl e ↦ absurd (ground (arith, e, h))
  | inr (rest, e) ↦
      let (bs, d, eq) = match_loop-Leftmost segs rest m q (rw (e, match_loop) at h) in
      (bs, fixed (strip_prefix-eq_some t s rest e) d, eq)
]
match_loop-Leftmost (wildcard n ∷ []) s m q h = ((n, s) ∷ [], last, cc)
match_loop-Leftmost (wildcard n ∷ next ∷ segs) s m q h =
    let v = (split_before (text next) s).0 in
    let rest = (split_before (text next) s).1 in
    let (bs, d, e) = match_loop-Leftmost (next ∷ segs) rest (insert n v m) q h in
    let (eq, within, stops) = split_before_lem (text next) s in
    ((n, v) ∷ bs, param eq within stops d, e)

Leftmost-match_loop :
    {segs : List Segment} {s : Bytes} {bs : Params} (m : Params)
    → Leftmost segs s bs
    → match_loop segs s m ≡ (some (assign m bs), true)
unfolding match_loop
Leftmost-match_loop m done = refl
Leftmost-match_loop m (fixed {t} {s} e d) =
    rw (e, match_loop, strip_prefix-append) (Leftmost-match_loop m d)
Leftmost-match_loop m last = refl
Leftmost-match_loop m (param {n} {v} {s} {next = next} e within stops d) =
    rw (e, split_before_unique (text next) v s within stops) (Leftmost-match_loop (insert n v m) d)

-- `matchSegments` accepts a text exactly if it can be read segment by segment with each parameter as
-- short as the text of the next segment allows, and returns the map of those parameters, a later one
-- of the same name replacing an earlier one.
pub match_segments_iff :
    (segs : List Segment) (s : Bytes) (q : Params)
    → (match_segments segs s ≡ (some q, true))
      ↔ ((bs : Params) × Leftmost segs s bs × (q ≡ assign [] bs))
unfolding match_segments
match_segments_iff segs s q =
    (match_loop-Leftmost segs s [] q, λ (bs, d, e). rw e (Leftmost-match_loop [] d))
