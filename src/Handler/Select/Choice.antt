-- ===== src/Handler/Select/Choice.antt =====
-- pkg/handler/handler.go: the rule that `manifests` takes, of all the rules that were collected.
use jitdi.Base.{◌≡◌, ◌↔◌, refl, subst, inl, inr, none, some, List, [], ◌∷◌, Bytes, All}
use jitdi.Pattern.Rule.{Rule, Action, match_rule}
use jitdi.Handler.Select.{
  Holds, IsFirstMatch, find_action, find_action-IsFirstMatch, find_action-none,
}
use jitdi.Handler.Select.Sorting.{Sorter, Alternates, Alternates-IsWeakOrder}

All-Holds_suc :
    (x : Rule) (xs ys : List Rule) → All (λ r. Holds r ys) xs → All (λ r. Holds r (x ∷ ys)) xs
All-Holds_suc x [] ys h = tt
All-Holds_suc x (y ∷ xs) ys (a, h) = (inr a, All-Holds_suc x xs ys h)

All-Holds : (xs : List Rule) → All (λ r. Holds r xs) xs
All-Holds [] = tt
All-Holds (x ∷ xs) = (inl refl, All-Holds_suc x xs xs (All-Holds xs))

All-at : (P : Rule → Type 0) (r : Rule) (xs : List Rule) → All P xs → Holds r xs → P r
All-at P r [] h m = absurd m
All-at P r (x ∷ xs) (a, h) (inl e) = subst P e a
All-at P r (x ∷ xs) (a, h) (inr m) = All-at P r xs h m

All-none-find_action :
    (rules : List Rule) (ref : Bytes)
    → All (λ r. match_rule r ref ≡ none) rules
    → find_action rules ref ≡ none
unfolding find_action
All-none-find_action [] ref h = refl
All-none-find_action (r ∷ rules) ref (e, h) = rw (e, find_action) (All-none-find_action rules ref h)

module _ (sorter : Sorter) where
  open sorter use {sort, sort_all, sort_ordered}

  -- If the collected rules have alternating segments, the action found in their sorted list is that of
  -- one of them which matches the reference, and no rule that matches it comes before that one.
  pub find_action-sort :
      (rules : List Rule) (ref : Bytes) (a : Action)
      → All Alternates rules
      → find_action (sort rules) ref ≡ some a
      → (r : Rule) × IsFirstMatch rules ref r a
  find_action-sort rules ref a alt h =
      let (r, (holds, m, best)) =
        find_action-IsFirstMatch (sort rules) ref a
          (sort_ordered Alternates rules Alternates-IsWeakOrder alt) h in
      (
        r,
        (
          All-at (λ x. Holds x rules) r (sort rules)
              ((sort_all (λ x. Holds x rules) rules).0 (All-Holds rules)) holds,
          m,
          (sort_all _ rules).1 best,
        ),
      )

  -- No action is found exactly if no collected rule matches the reference, whatever the order.
  pub find_action-sort_none :
      (rules : List Rule) (ref : Bytes)
      → (find_action (sort rules) ref ≡ none) ↔ All (λ r. match_rule r ref ≡ none) rules
  find_action-sort_none rules ref = (
    λ h. (sort_all _ rules).1 (find_action-none (sort rules) ref h),
    λ h. All-none-find_action (sort rules) ref ((sort_all _ rules).0 h),
  )
