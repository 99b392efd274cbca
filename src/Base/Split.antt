-- ===== src/Base/Split.antt =====
-- `strings.Split` and `strings.Join`.
use Prim.Native.Nat.{ℕ}
use mathlib.Core.Path.{◌≡◌, refl, ap, ◌∙◌}
use mathlib.Core.Logic.{◌≢◌}
use mathlib.Core.Bool.{Bool, true, false}
use mathlib.Core.List.{List, [], ◌∷◌, ◌++◌}
use native.Mathlib.Omega.{arith}
use jitdi.Base.Tests.{◌==◌}
use jitdi.Base.Text.{Bytes, Lacks}

-- A byte before the first part, or a new part before the others.
unfoldable pub onto : Bool → ℕ → List Bytes → List Bytes
onto true c parts = [] ∷ parts
onto false c [] = (c ∷ []) ∷ []
onto false c (p ∷ parts) = (c ∷ p) ∷ parts

-- `strings.Split(s, sep)` for a separator of one byte.
unfoldable pub split : ℕ → Bytes → List Bytes
unfolding onto
split sep [] = [] ∷ []
split sep (c ∷ s) = onto (c == sep) c (split sep s)

-- `strings.Join(parts, sep)`
unfoldable pub join : Bytes → List Bytes → Bytes
join sep [] = []
join sep (p ∷ []) = p
join sep (p ∷ q ∷ parts) = p ++ sep ++ join sep (q ∷ parts)

module _ (sep : ℕ) where
  pub split-ne-nil : (s : Bytes) → split sep s ≢ []
  unfolding split
  split-ne-nil [] = λ e. cc
  split-ne-nil (c ∷ s) = go (c == sep) (split sep s)
    where
      go : (b : Bool) (parts : List Bytes) → onto b c parts ≢ []
      go true parts = λ e. cc
      go false [] = λ e. cc
      go false (p ∷ parts) = λ e. cc

  pub split-Lacks : (l : Bytes) → Lacks sep l → split sep l ≡ l ∷ []
  unfolding split
  split-Lacks [] h = refl
  split-Lacks (c ∷ l) (n, h) = rw (split-Lacks l h) (ground arith)

  onto-append :
      (b : Bool) (c : ℕ) (xs ys : List Bytes) → xs ≢ [] → onto b c (xs ++ ys) ≡ onto b c xs ++ ys
  unfolding onto
  onto-append b c [] ys h = absurd (h refl)
  onto-append true c (x ∷ xs) ys h = refl
  onto-append false c (x ∷ xs) ys h = refl

  pub split-append : (a b : Bytes) → split sep (a ++ sep ∷ b) ≡ split sep a ++ split sep b
  unfolding split
  split-append [] b = ground arith
  split-append (c ∷ a) b =
      ap (onto (c == sep) c) (split-append a b)
      ∙ onto-append (c == sep) c (split sep a) (split sep b) (split-ne-nil a)

  join-onto :
      (c : ℕ) (parts : List Bytes)
      → parts ≢ []
      → join (sep ∷ []) (onto (c == sep) c parts) ≡ c ∷ join (sep ∷ []) parts
  unfolding join onto
  join-onto c [] h = absurd (h refl)
  join-onto c (p ∷ []) h = ground arith
  join-onto c (p ∷ q ∷ parts) h = ground arith

  pub join-split : (s : Bytes) → join (sep ∷ []) (split sep s) ≡ s
  unfolding split
  join-split [] = unfold join in refl
  join-split (c ∷ s) = join-onto c (split sep s) (split-ne-nil s) ∙ ap (λ t. c ∷ t) (join-split s)
