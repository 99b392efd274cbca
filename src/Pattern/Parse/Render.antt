-- ===== src/Pattern/Parse/Render.antt =====
-- pkg/pattern/pattern.go: `parseSegments` reads exactly the well-formed lists of segments.
use jitdi.Base.{
  ℕ, zero, suc, ◌≤◌, ◌≡◌, ◌≢◌, ◌↔◌, refl, ap, ◌∙◌, List, [], ◌∷◌, ◌++◌, append-nil, append_assoc,
  subst, arith, length, length-append, Bytes, Lacks, break_at, break_at-append, break_at-Lacks,
  break_at_head, break_at_stop, break_at_end,
}
use jitdi.Pattern.Parse.{
  Segment, literal, wildcard, Parsed, ok, open_brace, close_brace, add_literal, close_param,
  open_param, parse_loop, parse_segments,
}
use jitdi.Pattern.Parse.Shape.{render_segment, render, StartsNoLiteral, IsWellFormed}

-- What a run from the text `s` adds to the segments at hand.
abbrev Adds : List Segment → Bytes → List Segment → Type 0
Adds segs s out = (ts : List Segment) × (out ≡ segs ++ ts) × IsWellFormed ts × (render ts ≡ s)

-- As `Adds`, where no literal may come first.
abbrev AddsParam : List Segment → Bytes → List Segment → Type 0
AddsParam segs s out =
    (ts : List Segment) × (out ≡ segs ++ ts)
    × IsWellFormed ts
    × (render ts ≡ s)
    × StartsNoLiteral ts

close_param-AddsParam :
    (next : Bytes → List Segment → Parsed) (segs : List Segment) (name rest : Bytes)
    (out : List Segment)
    → ((s : Bytes) (more : List Segment) → next s more ≡ ok out → Adds more s out)
    → Lacks close_brace name
    → ((d : ℕ) (tail : Bytes) → rest ≡ d ∷ tail → d ≡ close_brace)
    → close_param next segs name rest ≡ ok out
    → AddsParam segs (open_brace ∷ name ++ rest) out
unfolding close_param
close_param-AddsParam next segs name [] out ih lacks head h = cc
close_param-AddsParam next segs [] (c ∷ rest) out ih lacks head h = cc
close_param-AddsParam next segs (x ∷ name) (c ∷ rest) out ih lacks head h =
    let (ts, e, wf, r) = ih rest (segs ++ wildcard (x ∷ name) ∷ []) h in
    (
      wildcard (x ∷ name) ∷ ts,
      e ∙ append_assoc segs (wildcard (x ∷ name) ∷ []) ts,
      (λ p. cc, lacks, wf),
      simp (append_assoc, r, head c rest refl),
      tt,
    )

open_param-AddsParam :
    (next : Bytes → List Segment → Parsed) (segs : List Segment) (rest : Bytes) (out : List Segment)
    → ((s : Bytes) (more : List Segment) → next s more ≡ ok out → Adds more s out)
    → ((d : ℕ) (tail : Bytes) → rest ≡ d ∷ tail → d ≡ open_brace)
    → open_param next segs rest ≡ ok out
    → AddsParam segs rest out
unfolding open_param
open_param-AddsParam next segs [] out ih head h = ([], cc (append-nil segs), tt, refl, tt)
open_param-AddsParam next segs (c ∷ body) out ih head h =
    let (ts, e, wf, r, st) =
      close_param-AddsParam next segs (break_at close_brace body).0 (break_at close_brace body).1
        out ih (break_at-Lacks close_brace body) (break_at_head close_brace body) h in
    (
      ts,
      e,
      wf,
      rw (head c body refl) (r ∙ ap (λ t. open_brace ∷ t) (break_at-append close_brace body)),
      st,
    )

Adds-add_literal :
    (text rest : Bytes) (segs out : List Segment)
    → Lacks open_brace text
    → AddsParam (add_literal segs text) rest out
    → Adds segs (text ++ rest) out
unfolding add_literal
Adds-add_literal [] rest segs out lacks (ts, e, wf, r, st) = (ts, e, wf, r)
Adds-add_literal (x ∷ text) rest segs out lacks (ts, e, wf, r, st) = (
  literal (x ∷ text) ∷ ts,
  e ∙ append_assoc segs (literal (x ∷ text) ∷ []) ts,
  ((λ p. cc), lacks, st, wf),
  rw r,
)

parse_loop-Adds :
    (f : ℕ) (s : Bytes) (segs out : List Segment) → parse_loop f s segs ≡ ok out → Adds segs s out
unfolding parse_loop
parse_loop-Adds f [] segs out h = ([], cc (append-nil segs), tt, refl)
parse_loop-Adds zero (c ∷ s) segs out h = cc
parse_loop-Adds (suc f) (c ∷ s) segs out h =
    let text = (break_at open_brace (c ∷ s)).0 in
    let rest = (break_at open_brace (c ∷ s)).1 in
    subst (λ u. Adds segs u out) (break_at-append open_brace (c ∷ s))
      (Adds-add_literal text rest segs out (break_at-Lacks open_brace (c ∷ s)) (
        open_param-AddsParam (parse_loop f) (add_literal segs text) rest out
          (λ u more. parse_loop-Adds f u more out) (break_at_head open_brace (c ∷ s)) h))

pub parse_segments-IsWellFormed :
    (s : Bytes) (segs : List Segment)
    → parse_segments s ≡ ok segs
    → IsWellFormed segs × (render segs ≡ s)
unfolding parse_segments
parse_segments-IsWellFormed s segs h =
    let (ts, e, wf, r) = parse_loop-Adds (length s) s [] segs h in rw e (wf, r)

-- the other way
parse_loop-literal :
    (f : ℕ) (t : Bytes) (acc : List Segment) (rest : Bytes)
    → t ≢ []
    → Lacks open_brace t
    → break_at open_brace (t ++ rest) ≡ (t, rest)
    → parse_loop (suc f) (t ++ rest) acc ≡ open_param (parse_loop f) (acc ++ literal t ∷ []) rest
unfolding parse_loop add_literal
parse_loop-literal f [] acc rest h lacks e = absurd (h refl)
parse_loop-literal f (x ∷ t) acc rest h lacks e = rw e

parse_loop-wildcard :
    (f : ℕ) (n rest : Bytes) (acc : List Segment)
    → parse_loop (suc f) (render_segment (wildcard n) ++ rest) acc
      ≡ open_param (parse_loop f) acc (render_segment (wildcard n) ++ rest)
unfolding parse_loop add_literal break_at
parse_loop-wildcard f n rest acc = refl

open_param-wildcard :
    (f : ℕ) (n rest : Bytes) (acc : List Segment)
    → n ≢ []
    → Lacks close_brace n
    → open_param (parse_loop f) acc (render_segment (wildcard n) ++ rest)
      ≡ parse_loop f rest (acc ++ wildcard n ∷ [])
unfolding open_param
open_param-wildcard f [] rest acc h lacks = absurd (h refl)
open_param-wildcard f (x ∷ n) rest acc h lacks =
    rw append_assoc (rw (break_at_stop close_brace (x ∷ n) rest lacks))

parse_loop-render :
    (segs : List Segment) (f : ℕ) (acc : List Segment)
    → IsWellFormed segs
    → length (render segs) ≤ f
    → parse_loop f (render segs) acc ≡ ok (acc ++ segs)
parse_loop-render [] f acc wf h = unfold parse_loop in cc (append-nil acc)
parse_loop-render (literal [] ∷ segs) f acc wf h = absurd (wf.0 refl)
parse_loop-render (literal t ∷ segs) zero acc wf h = absurd (omega arith)
parse_loop-render (literal t ∷ []) (suc f) acc (ne, lacks, st, wf) h =
    parse_loop-literal f t acc [] ne lacks (simp append-nil (break_at_end open_brace t lacks))
    ∙ (unfold open_param in refl)
parse_loop-render (literal t ∷ wildcard n ∷ segs) (suc f) acc (ne, lacks, st, (ne', lacks', wf)) h =
    parse_loop-literal f t acc (render (wildcard n ∷ segs)) ne lacks
      (break_at_stop open_brace t _ lacks)
    ∙ open_param-wildcard f n (render segs) (acc ++ literal t ∷ []) ne' lacks'
    ∙ parse_loop-render segs f ((acc ++ literal t ∷ []) ++ wildcard n ∷ []) wf (
        omega (
          arith,
          length-append t (render (wildcard n ∷ segs)),
          length-append (n ++ close_brace ∷ []) (render segs),
          length-append n (close_brace ∷ []),
        ))
    ∙ simp append_assoc
parse_loop-render (literal t ∷ literal u ∷ segs) (suc f) acc (ne, lacks, st, wf) h = absurd st
parse_loop-render (wildcard n ∷ segs) zero acc wf h = absurd (omega arith)
parse_loop-render (wildcard n ∷ segs) (suc f) acc (ne, lacks, wf) h =
    parse_loop-wildcard f n (render segs) acc
    ∙ open_param-wildcard f n (render segs) acc ne lacks
    ∙ parse_loop-render segs f (acc ++ wildcard n ∷ []) wf (
        omega (
          arith,
          length-append (n ++ close_brace ∷ []) (render segs),
          length-append n (close_brace ∷ []),
        ))
    ∙ simp append_assoc

parse_segments-render :
    (segs : List Segment) → IsWellFormed segs → parse_segments (render segs) ≡ ok segs
unfolding parse_segments
parse_segments-render segs wf = parse_loop-render segs (length (render segs)) [] wf (omega arith)

-- `parseSegments` succeeds with some segments exactly if they are well formed and, written out, are
-- the text that was parsed.
pub parse_segments_iff :
    (s : Bytes) (segs : List Segment)
    → (parse_segments s ≡ ok segs) ↔ (IsWellFormed segs × (render segs ≡ s))
parse_segments_iff s segs = (
  parse_segments-IsWellFormed s segs,
  λ (wf, r). subst (λ u. parse_segments u ≡ ok segs) r (parse_segments-render segs wf),
)
