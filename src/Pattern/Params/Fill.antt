-- ===== src/Pattern/Params/Fill.antt =====
-- pkg/pattern/action.go: `replaceWithParams` fills every parameter of a template at once, in
-- whatever order the map of parameters is visited.
use mathlib.Core.Path.{ap₂}
use jitdi.Base.{
  ℕ, ◌-◌, ◌≡◌, refl, sym, ap, ◌∙◌, false, Bool-cases, inl, inr, none, some, Option-cases, List, [],
  ◌∷◌, ◌++◌, map, append_assoc, arith, if◌then◌else◌, Bytes, Lacks, All, All-append, bytes_eq,
  bytes_eq_iff, strip_prefix, strip_prefix-append, strip_prefix-eq_some, length, break_at,
  break_at_stop,
}
use jitdi.Pattern.Parse.{Segment, literal, wildcard}
use jitdi.Pattern.Parse.Shape.{render}
use jitdi.Pattern.Params.{Params, lookup, replace_from, replace_all, braced, replace_with_params}

-- A template: no '{' in its fixed texts, neither brace in its parameters' names.
abbrev pub IsTemplate : List Segment → Type 0
IsTemplate [] = Unit
IsTemplate (literal t ∷ segs) = Lacks b'{' t × IsTemplate segs
IsTemplate (wildcard n ∷ segs) = Lacks b'{' n × Lacks b'}' n × IsTemplate segs

-- Parameters whose names hold no '}' and whose values hold no '{'.
abbrev pub ArePlain : Params → Type 0
ArePlain ps = All (λ (k, v). Lacks b'}' k × Lacks b'{' v) ps

abbrev pub fill_segment : Params → Segment → Bytes
fill_segment ps (literal t) = t
fill_segment ps (wildcard n) = elim (lookup n ps) [ some v ↦ v | none ↦ braced n ]

-- Each parameter replaced by its value, and left in its braces if it has none.
abbrev pub fill : Params → List Segment → Bytes
fill ps [] = []
fill ps (g ∷ segs) = fill_segment ps g ++ fill ps segs

-- One entry of the map put in.
abbrev set_param : Bytes → Bytes → Segment → Segment
set_param k v (literal t) = literal t
set_param k v (wildcard n) = if bytes_eq k n then literal v else wildcard n

module _ (old new : Bytes) where
  replace_from-skip :
      (t s : Bytes) → replace_from old new (length t) (t ++ s) ≡ replace_from old new 0 s
  unfolding replace_from
  replace_from-skip [] s = refl
  replace_from-skip (c ∷ t) s = replace_from-skip t s

module _ (old new : Bytes) (c : ℕ) (s : Bytes) where
  replace_from-some :
      (u : Bytes)
      → strip_prefix old (c ∷ s) ≡ some u
      → replace_from old new 0 (c ∷ s) ≡ new ++ replace_from old new (length old - 1) s
  unfolding replace_from
  replace_from-some u e = rw (e, replace_from)

  replace_from-none :
      strip_prefix old (c ∷ s) ≡ none
      → replace_from old new 0 (c ∷ s) ≡ c ∷ replace_from old new 0 s
  unfolding replace_from
  replace_from-none e = rw (e, replace_from)

replace_from-Lacks :
    (p new t s : Bytes)
    → Lacks b'{' t
    → replace_from (b'{' ∷ p) new 0 (t ++ s) ≡ t ++ replace_from (b'{' ∷ p) new 0 s
unfolding replace_from
replace_from-Lacks p new [] s h = refl
replace_from-Lacks p new (c ∷ t) s h = ground (arith, replace_from-Lacks p new t s h.1)

abbrev tail : Bytes → Bytes
tail [] = []
tail (c ∷ s) = s

until_unique : (c : ℕ) (n k s u : Bytes) → Lacks c n → Lacks c k → n ++ c ∷ s ≡ k ++ c ∷ u → n ≡ k
until_unique c n k s u hn hk e =
    ap (λ p. p.0) (sym (break_at_stop c n s hn) ∙ ap (break_at c) e ∙ break_at_stop c k u hk)

module _ (k new : Bytes) where
  replace_from_hit :
      (s : Bytes)
      → replace_from (braced k) new 0 (braced k ++ s) ≡ new ++ replace_from (braced k) new 0 s
  replace_from_hit s =
      replace_from-some (braced k) new b'{' ((k ++ b'}' ∷ []) ++ s) s
        (strip_prefix-append (braced k) s)
      ∙ ap (λ t. new ++ t) (rw less (replace_from-skip (braced k) new (k ++ b'}' ∷ []) s))
    where
      less : length (braced k) - 1 ≡ length (k ++ b'}' ∷ [])
      less = omega arith

  tail_eq :
      (n s u : Bytes)
      → strip_prefix (braced k) (braced n ++ s) ≡ some u
      → n ++ b'}' ∷ s ≡ k ++ b'}' ∷ u
  tail_eq n s u e =
      sym (append_assoc n (b'}' ∷ []) s)
      ∙ ap tail (strip_prefix-eq_some (braced k) (braced n ++ s) u e)
      ∙ append_assoc k (b'}' ∷ []) u

  strip_prefix-braced :
      (n s : Bytes)
      → Lacks b'}' n
      → Lacks b'}' k
      → bytes_eq k n ≡ false
      → strip_prefix (braced k) (braced n ++ s) ≡ none
  strip_prefix-braced n s hn hk ne = elim (Option-cases (strip_prefix (braced k) (braced n ++ s))) [
    | inl e ↦ e
    | inr (u, e) ↦
        absurd (ground (arith, bytes_eq_iff k n, until_unique b'}' n k s u hn hk (tail_eq n s u e)))
  ]

  replace_from_miss :
      (n s : Bytes)
      → Lacks b'{' n
      → Lacks b'}' n
      → Lacks b'}' k
      → bytes_eq k n ≡ false
      → replace_from (braced k) new 0 (braced n ++ s) ≡ braced n ++ replace_from (braced k) new 0 s
  replace_from_miss n s ho hn hk ne =
      replace_from-none (braced k) new b'{' ((n ++ b'}' ∷ []) ++ s)
        (strip_prefix-braced n s hn hk ne)
      ∙ ap (λ t. b'{' ∷ t)
          (replace_from-Lacks (k ++ b'}' ∷ []) new (n ++ b'}' ∷ []) s
            (All-append _ n (b'}' ∷ []) ho (omega arith)))

-- One pass of `strings.ReplaceAll` over a template puts one entry in.
replace_all-render :
    (k v : Bytes) (segs : List Segment)
    → Lacks b'}' k
    → IsTemplate segs
    → replace_from (braced k) v 0 (render segs) ≡ render (map (set_param k v) segs)
replace_all-render k v [] hk t = unfold replace_from in refl
replace_all-render k v (literal t ∷ segs) hk (ho, w) =
    replace_from-Lacks (k ++ b'}' ∷ []) v t (render segs) ho
    ∙ ap (λ u. t ++ u) (replace_all-render k v segs hk w)
replace_all-render k v (wildcard n ∷ segs) hk (ho, hn, w) = elim (Bool-cases (bytes_eq k n)) [
  | inl e ↦
      rw (e, ← (bytes_eq_iff k n).0 e)
        (replace_from_hit k v (render segs) ∙ ap (λ u. v ++ u) (replace_all-render k v segs hk w))
  | inr e ↦ rw e (
      replace_from_miss k v n (render segs) ho hn hk e
      ∙ ap (λ u. braced n ++ u) (replace_all-render k v segs hk w))
]

set_param-IsTemplate :
    (k v : Bytes) (segs : List Segment)
    → Lacks b'{' v
    → IsTemplate segs
    → IsTemplate (map (set_param k v) segs)
set_param-IsTemplate k v [] hv t = tt
set_param-IsTemplate k v (literal u ∷ segs) hv (ho, w) = (ho, set_param-IsTemplate k v segs hv w)
set_param-IsTemplate k v (wildcard n ∷ segs) hv (ho, hn, w) = elim (Bool-cases (bytes_eq k n)) [
  | inl e ↦ rw e (hv, set_param-IsTemplate k v segs hv w)
  | inr e ↦ rw e (ho, hn, set_param-IsTemplate k v segs hv w)
]

fill_segment-set_param :
    (k v n : Bytes) (ps : Params)
    → fill_segment ps (set_param k v (wildcard n)) ≡ fill_segment ((k, v) ∷ ps) (wildcard n)
unfolding lookup
fill_segment-set_param k v n ps = ground arith

fill-set_param :
    (k v : Bytes) (ps : Params) (segs : List Segment)
    → fill ps (map (set_param k v) segs) ≡ fill ((k, v) ∷ ps) segs
fill-set_param k v ps [] = refl
fill-set_param k v ps (literal t ∷ segs) = ap (λ u. t ++ u) (fill-set_param k v ps segs)
fill-set_param k v ps (wildcard n ∷ segs) =
    ap₂ ◌++◌ (fill_segment-set_param k v n ps) (fill-set_param k v ps segs)

fill_nil : (segs : List Segment) → render segs ≡ fill [] segs
unfolding lookup
fill_nil [] = refl
fill_nil (literal t ∷ segs) = ap (λ u. t ++ u) (fill_nil segs)
fill_nil (wildcard n ∷ segs) = ap (λ u. braced n ++ u) (fill_nil segs)

-- The written template comes out with each parameter replaced by its value, if no name of a
-- parameter holds a '}', no value holds a '{', and the template's names hold no braces.
pub replace_with_params-render :
    (ps : Params) (segs : List Segment)
    → ArePlain ps
    → IsTemplate segs
    → replace_with_params (render segs) ps ≡ fill ps segs
unfolding replace_with_params
replace_with_params-render [] segs p t = fill_nil segs
replace_with_params-render ((k, v) ∷ ps) segs ((hk, hv), p) t =
    ap (λ u. replace_with_params u ps) (unfold replace_all in replace_all-render k v segs hk t)
    ∙ replace_with_params-render ps (map (set_param k v) segs) p
        (set_param-IsTemplate k v segs hv t)
    ∙ fill-set_param k v ps segs
