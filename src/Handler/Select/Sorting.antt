-- ===== src/Handler/Select/Sorting.antt =====
-- pkg/handler/handler.go: `sort.Slice` by `LessThan`, as its documentation has it.
use jitdi.Base.{◌≡◌, ◌↔◌, ◌≢◌, true, false, some, List, [], ◌∷◌, All, arith}
use jitdi.Pattern.Parse.{Segment}
use jitdi.Pattern.Less.Laws.{
  IsAlternating, pattern_less_asym, pattern_less_negtrans, pattern_less-ne-none,
}
use jitdi.Pattern.Rule.{Rule, less_than}
use jitdi.Handler.Select.{NotBefore, IsOrdered}

-- On the rules that satisfy `Good` the comparison is a strict weak order.
pub record IsWeakOrder (Good : Rule → Type 0) : Type 0 where
  pub asym : (p q : Rule) → Good p → Good q → less_than p q ≡ some true → NotBefore q p
  pub negtrans :
      (p q r : Rule) → Good p → Good q → Good r → NotBefore p q → NotBefore q r → NotBefore p r

-- A sort keeps the rules, and orders them where the comparison is a strict weak order.
pub record Sorter : Type 1 where
  pub sort : List Rule → List Rule
  pub sort_all : (P : Rule → Type 0) (rules : List Rule) → All P rules ↔ All P (sort rules)
  pub sort_ordered :
      (Good : Rule → Type 0) (rules : List Rule)
      → IsWeakOrder Good
      → All Good rules
      → IsOrdered (sort rules)

abbrev pub Alternates : Rule → Type 0
Alternates r = IsAlternating r.match

IsAlternating-ne-nil : (p : List Segment) → IsAlternating p → p ≢ []
IsAlternating-ne-nil [] h = absurd h
IsAlternating-ne-nil (g ∷ p) h = λ e. cc

decided : (p q : Rule) → Alternates p → Alternates q → NotBefore p q → less_than p q ≡ some false
unfolding less_than
decided p q hp hq h = ground (
  arith,
  pattern_less-ne-none p.match q.match (IsAlternating-ne-nil p.match hp)
      (IsAlternating-ne-nil q.match hq),
)

asym : (p q : Rule) → less_than p q ≡ some true → NotBefore q p
unfolding less_than
asym p q h k = cc (pattern_less_asym p.match q.match h, k)

negtrans :
    (p q r : Rule)
    → Alternates p
    → Alternates q
    → Alternates r
    → less_than p q ≡ some false
    → less_than q r ≡ some false
    → NotBefore p r
unfolding less_than
negtrans p q r hp hq hr h k l = cc (l, pattern_less_negtrans p.match q.match r.match hp hq hr h k)

-- Rules of alternating segments are in a strict weak order.
pub Alternates-IsWeakOrder : IsWeakOrder Alternates
Alternates-IsWeakOrder = record {
  asym = λ p q hp hq. asym p q;
  negtrans =
      λ p q r hp hq hr h k. negtrans p q r hp hq hr (decided p q hp hq h) (decided q r hq hr k);
}
