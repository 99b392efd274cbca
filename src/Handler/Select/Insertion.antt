-- ===== src/Handler/Select/Insertion.antt =====
-- pkg/handler/handler.go: an insertion sort shows that what is asked of `sort.Slice` can be had.
use jitdi.Base.{
  ◌≡◌, ◌↔◌, Bool, true, false, Option, none, some, List, [], ◌∷◌, All, arith, inl, inr, Bool-cases,
}
use jitdi.Pattern.Rule.{Rule, less_than}
use jitdi.Handler.Select.{NotBefore, IsOrdered}
use jitdi.Handler.Select.Sorting.{IsWeakOrder, Sorter}

abbrev is_before : Option Bool → Bool
is_before (some b) = b
is_before none = false

unfoldable pub put : Rule → List Rule → List Rule
put r [] = r ∷ []
put r (x ∷ rules) =
    let rest = put r rules in
    elim (is_before (less_than r x)) [ true ↦ r ∷ x ∷ rules | false ↦ x ∷ rest ]

put-All :
    (P : Rule → Type 0) (r : Rule) (rules : List Rule) → (P r × All P rules) ↔ All P (put r rules)
unfolding put
put-All P r [] = ((λ h. h), (λ h. h))
put-All P r (x ∷ rules) = elim (Bool-cases (is_before (less_than r x))) [
  | inl e ↦ rw (e, put) ((λ h. h), (λ h. h))
  | inr e ↦
      let (to, from) = put-All P r rules in
      rw (e, put)
        ((λ (hr, (hx, h)). (hx, to (hr, h))), (λ (hx, h). let (hr, h') = from h in (hr, (hx, h'))))
]

unfoldable pub insertion_sort : List Rule → List Rule
unfolding put
insertion_sort [] = []
insertion_sort (r ∷ rules) = put r (insertion_sort rules)

pub insertion_sort-All :
    (P : Rule → Type 0) (rules : List Rule) → All P rules ↔ All P (insertion_sort rules)
unfolding insertion_sort
insertion_sort-All P [] = ((λ h. h), (λ h. h))
insertion_sort-All P (r ∷ rules) =
    let (to, from) = insertion_sort-All P rules in
    let (to', from') = put-All P r (insertion_sort rules) in
    ((λ (hr, h). to' (hr, to h)), (λ h. let (hr, h') = from' h in (hr, from h')))

module _ (Good : Rule → Type 0) (w : IsWeakOrder Good) where
  NotBefore-All :
      (r x : Rule) (rules : List Rule)
      → Good r
      → Good x
      → All Good rules
      → NotBefore x r
      → All (λ o. NotBefore o x) rules
      → All (λ o. NotBefore o r) rules
  NotBefore-All r x [] hr hx h n a = tt
  NotBefore-All r x (o ∷ rules) hr hx (ho, h) n (m, a) =
      (w.negtrans o x r ho hx hr m n, NotBefore-All r x rules hr hx h n a)

  is_before-true : (r x : Rule) → is_before (less_than r x) ≡ true → less_than r x ≡ some true
  is_before-true r x e = ground arith

  put-IsOrdered :
      (r : Rule) (rules : List Rule)
      → Good r
      → All Good rules
      → IsOrdered rules
      → IsOrdered (put r rules)
  unfolding put
  put-IsOrdered r [] hr h o = (tt, tt)
  put-IsOrdered r (x ∷ rules) hr (hx, h) (a, o) = elim (Bool-cases (is_before (less_than r x))) [
    | inl e ↦
        let n = w.asym r x hr hx (is_before-true r x e) in
        rw (e, put) ((n, NotBefore-All r x rules hr hx h n a), (a, o))
    | inr e ↦
        rw (e, put)
          (
            (put-All (λ p. NotBefore p x) r rules).0 ((λ k. ground arith), a),
            put-IsOrdered r rules hr h o,
          )
  ]

  pub insertion_sort-IsOrdered :
      (rules : List Rule) → All Good rules → IsOrdered (insertion_sort rules)
  unfolding insertion_sort
  insertion_sort-IsOrdered [] h = tt
  insertion_sort-IsOrdered (r ∷ rules) (hr, h) =
      put-IsOrdered r (insertion_sort rules) hr ((insertion_sort-All Good rules).0 h)
        (insertion_sort-IsOrdered rules h)

abbrev pub insertion : Sorter
insertion = record {
  sort = insertion_sort;
  sort_all = insertion_sort-All;
  sort_ordered = λ Good rules w h. insertion_sort-IsOrdered Good w rules h;
}
