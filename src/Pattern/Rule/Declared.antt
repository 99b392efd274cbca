-- ===== src/Pattern/Rule/Declared.antt =====
-- pkg/pattern/rule.go with pkg/pattern/pattern.go: the images that the rule of a declared image matches.
use jitdi.Base.{
  ◌≡◌, ◌↔◌, ◌⊎◌, refl, sym, ap, ◌∙◌, subst, Bool, true, false, Option, none, some, List, [], ◌++◌,
  append-nil, arith, Bool-cases, inl, inr, Bytes, codes, Lacks, break_at, break_at-append,
  break_at-Lacks, break_at_end,
}
use jitdi.Config.{ImageSpec}
use jitdi.Pattern.Parse.{Segment, Parsed, ok, err, lacks_colon, parse_pattern}
use jitdi.Pattern.Parse.Shape.{render, IsWellFormed}
use jitdi.Pattern.Parse.Render.{parse_segments_iff}
use jitdi.Pattern.Params.{Params}
use jitdi.Pattern.Match.{match_segments}
use jitdi.Pattern.Match.Leftmost.{Leftmost, assign, match_segments_iff}
use jitdi.Pattern.Rule.{Rule, Made, made, refused, new_rule, rule_of, match_rule, action_of}

-- The pattern with a tag: itself where it has a colon, or with the tag "latest".
abbrev pub IsTagged : Bytes → Bytes → Type 0
IsTagged m t = (Lacks b':' m × (t ≡ m ++ codes ":latest")) ⊎ ((Lacks b':' m → ⊥) × (t ≡ m))

lacks_colon-Lacks : (m : Bytes) → lacks_colon m ≡ true → Lacks b':' m
unfolding lacks_colon
lacks_colon-Lacks m h =
    let rest : (break_at b':' m).1 ≡ [] = ground (arith, h) in
    subst (Lacks b':')
      (sym (append-nil (break_at b':' m).0)
        ∙ ap (λ r. (break_at b':' m).0 ++ r) (sym rest)
        ∙ break_at-append b':' m)
      (break_at-Lacks b':' m)

Lacks-lacks_colon : (m : Bytes) → Lacks b':' m → lacks_colon m ≡ true
unfolding lacks_colon
Lacks-lacks_colon m l = rw (break_at_end b':' m l) refl

parse_pattern-IsTagged :
    (m : Bytes) (segs : List Segment)
    → (parse_pattern m ≡ ok segs) ↔ (IsWellFormed segs × IsTagged m (render segs))
unfolding parse_pattern
parse_pattern-IsTagged m segs = elim (Bool-cases (lacks_colon m)) [
  | inl e ↦
      let (to, from) = parse_segments_iff (m ++ codes ":latest") segs in
      rw e (
        λ h. let (wf, r) = to h in (wf, inl (lacks_colon-Lacks m e, r)),
        λ (wf, r).
            from (wf, elim r [ inl (l, q) ↦ q | inr (l, q) ↦ absurd (l (lacks_colon-Lacks m e)) ]),
      )
  | inr e ↦
      let (to, from) = parse_segments_iff m segs in
      let no : Lacks b':' m → ⊥ = λ l. cc (Lacks-lacks_colon m l, e) in
      rw e (
        λ h. let (wf, r) = to h in (wf, inr (no, r)),
        λ (wf, r). from (wf, elim r [ inl (l, q) ↦ absurd (no l) | inr (l, q) ↦ q ]),
      )
]

-- No reading of the image by the segments of the pattern.
abbrev pub Misses : Bytes → Bytes → Type 0
Misses pattern image =
    (segs : List Segment) (bs : Params)
    → IsWellFormed segs
    → IsTagged pattern (render segs)
    → Leftmost segs image bs
    → ⊥

action_of_nothing :
    (r : Rule) (image : Bytes) (bs : Params)
    → match_rule r image ≡ none
    → Leftmost r.match image bs
    → ⊥
unfolding match_rule action_of
action_of_nothing r image bs h d =
    let e : match_segments r.match image ≡ (some (assign [] bs), true) =
      (match_segments_iff r.match image (assign [] bs)).1 (bs, d, refl) in
    let found : action_of r image (some (assign [] bs), true) ≡ none =
      ap (action_of r image) (sym e) ∙ h in
    cc

action_of_rejected :
    (r : Rule) (image : Bytes) (o : Option Params × Bool)
    → ((q : Params) → o ≡ (some q, true) → ⊥)
    → action_of r image o ≡ none
unfolding action_of
action_of_rejected r image (none, b) h = refl
action_of_rejected r image (some q, false) h = refl
action_of_rejected r image (some q, true) h = absurd (h q refl)

match_rule_nothing :
    (r : Rule) (image : Bytes)
    → ((bs : Params) → Leftmost r.match image bs → ⊥)
    → match_rule r image ≡ none
unfolding match_rule
match_rule_nothing r image h =
    action_of_rejected r image (match_segments r.match image)
      λ q e. let (bs, d, _) = (match_segments_iff r.match image q).0 e in h bs d

abbrev rule_with : ImageSpec → List Segment → Rule
rule_with conf segs = record {
  match = segs;
  base_image = conf.base_image;
  mutates = conf.mutates;
  platforms = conf.platforms;
}

abbrev rule_in : Rule → Made → Rule
rule_in r (made r') = r'
rule_in r (refused e) = r

rule_of-made :
    (conf : ImageSpec) (p : Parsed) (r : Rule)
    → rule_of conf p ≡ made r
    → (segs : List Segment) × (p ≡ ok segs) × (rule_with conf segs ≡ r)
unfolding rule_of
rule_of-made conf (ok segs) r e = (segs, refl, ap (rule_in r) e)
rule_of-made conf (err p) r e = cc

-- No rule that is made of the spec matches the image exactly if its pattern misses the image.
pub new_rule-Misses :
    (conf : ImageSpec) (image : Bytes)
    → ((r : Rule) → new_rule conf ≡ made r → match_rule r image ≡ none) ↔ Misses conf.match image
unfolding new_rule
new_rule-Misses conf image = (
  λ h segs bs wf t d.
      let parsed = (parse_pattern-IsTagged conf.match segs).1 (wf, t) in
      action_of_nothing (rule_with conf segs) image bs (h (rule_with conf segs) (rw parsed refl)) d,
  λ misses r e.
      let (segs, parsed, same) = rule_of-made conf (parse_pattern conf.match) r e in
      let (wf, t) = (parse_pattern-IsTagged conf.match segs).0 parsed in
      subst (λ r. match_rule r image ≡ none) same
        (match_rule_nothing (rule_with conf segs) image λ bs. misses segs bs wf t),
)
