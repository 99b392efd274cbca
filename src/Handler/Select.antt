-- ===== src/Handler/Select.antt =====
-- pkg/handler/handler.go: the sorted rules and the choice of the first that matches (`manifests`).
pub mod Sorting
pub mod Insertion
pub mod Choice
use jitdi.Base.{
  ◌≡◌, ◌≢◌, ◌∙◌, ◌⊎◌, refl, Bool, true, false, Option, none, some, List, [], ◌∷◌, arith, Bytes, All,
  Option-cases, inl, inr,
}
use jitdi.Pattern.Less.Laws.{pattern_less_asym}
use jitdi.Pattern.Rule.{Rule, Action, match_rule, less_than}

-- `o` is not to be tried before `r`.
abbrev pub NotBefore : Rule → Rule → Type 0
NotBefore o r = less_than o r ≢ some true

-- No rule is to be tried before one that stands ahead of it.
abbrev pub IsOrdered : List Rule → Type 0
IsOrdered [] = Unit
IsOrdered (r ∷ rules) = All (λ o. NotBefore o r) rules × IsOrdered rules

-- `slices.IndexFunc` with the action that its function leaves behind.
unfoldable pub find_action : List Rule → Bytes → Option Action
unfolding match_rule
find_action [] ref = none
find_action (r ∷ rules) ref = elim (match_rule r ref) [
  | some a ↦ some a
  | none ↦ find_action rules ref
]

-- Some rule of the list is `r`.
abbrev pub Holds : Rule → List Rule → Type 0
Holds r [] = ⊥
Holds r (x ∷ rules) = (x ≡ r) ⊎ Holds r rules

less_than_irrefl : (r : Rule) → NotBefore r r
unfolding less_than
less_than_irrefl r h = cc (pattern_less_asym r.match r.match h, h)

-- What is known of the rule `r` that was chosen with the action `a`.
abbrev pub IsFirstMatch : List Rule → Bytes → Rule → Action → Type 0
IsFirstMatch rules ref r a =
    Holds r rules
    × (match_rule r ref ≡ some a)
    × All (λ o. (match_rule o ref ≡ none) ⊎ NotBefore o r) rules

weaken :
    (rules : List Rule) (ref : Bytes) (r : Rule)
    → All (λ o. NotBefore o r) rules
    → All (λ o. (match_rule o ref ≡ none) ⊎ NotBefore o r) rules
weaken [] ref r h = tt
weaken (o ∷ rules) ref r (h, hs) = (inr h, weaken rules ref r hs)

find_action-IsFirstMatch :
    (rules : List Rule) (ref : Bytes) (a : Action)
    → IsOrdered rules
    → find_action rules ref ≡ some a
    → (r : Rule) × IsFirstMatch rules ref r a
unfolding find_action
find_action-IsFirstMatch [] ref a o h = cc
find_action-IsFirstMatch (r ∷ rules) ref a (first, o) h = elim (Option-cases (match_rule r ref)) [
  | inr (b, e) ↦ (
    r,
    (
      inl refl,
      e ∙ (rw (e, find_action) at h),
      (inr (less_than_irrefl r), weaken rules ref r first),
    ),
  )
  | inl e ↦
      let (s, (holds, m, best)) =
        find_action-IsFirstMatch rules ref a o (rw (e, find_action) at h) in
      (s, (inr holds, m, (inl e, best)))
]

pub find_action-none :
    (rules : List Rule) (ref : Bytes)
    → find_action rules ref ≡ none
    → All (λ r. match_rule r ref ≡ none) rules
unfolding find_action
find_action-none [] ref h = tt
find_action-none (r ∷ rules) ref h = elim (Option-cases (match_rule r ref)) [
  | inr (b, e) ↦ absurd (ground (arith, e, h))
  | inl e ↦ (e, find_action-none rules ref (rw (e, find_action) at h))
]
