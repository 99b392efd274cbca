-- ===== src/Base/Lists.antt =====
-- Lists measured by native numbers, predicates by recursion, and searches.
use Prim.Native.Nat.{ℕ, suc, ◌+◌}
use mathlib.Core.Path.{◌≡◌, refl, ap}
use mathlib.Core.Logic.{◌⊎◌, inl, inr}
use mathlib.Core.Bool.{Bool, true, false}
use mathlib.Core.List.{List, [], ◌∷◌, ◌++◌, map}
use native.Mathlib.Omega.{arith}

module _ {ℓ} {A : Type ℓ} where
  abbrev pub length : List A → ℕ
  length [] = 0
  length (x ∷ xs) = suc (length xs)

  abbrev pub is_empty : List A → Bool
  is_empty [] = true
  is_empty (x ∷ xs) = false

  pub length-append : (xs ys : List A) → length (xs ++ ys) ≡ length xs + length ys
  length-append [] ys = omega arith
  length-append (x ∷ xs) ys = omega (arith, length-append xs ys)

-- A predicate of every element, and of some element.
module _ {ℓ κ} {A : Type ℓ} (P : A → Type κ) where
  abbrev pub All : List A → Type κ
  All [] = Unit
  All (x ∷ xs) = P x × All xs

module _ {ℓ κ} {A : Type ℓ} (P : A → Type κ) where
  pub All-append : (xs ys : List A) → All P xs → All P ys → All P (xs ++ ys)
  All-append [] ys hx hy = hy
  All-append (x ∷ xs) ys hx hy = (hx.0, All-append xs ys hx.1 hy)

pub map-append :
    {A B : Type 0} (f : A → B) (xs ys : List A) → map f (xs ++ ys) ≡ map f xs ++ map f ys
map-append f [] ys = refl
map-append f (x ∷ xs) ys = ap (λ r. f x ∷ r) (map-append f xs ys)

-- One of the elements is `x`.
module _ {A : Type 0} where
  abbrev pub Among : List A → A → Type 0
  Among [] x = ⊥
  Among (y ∷ ys) x = (y ≡ x) ⊎ Among ys x

  pub Among-append_left : (xs ys : List A) (x : A) → Among xs x → Among (xs ++ ys) x
  Among-append_left [] ys x h = absurd h
  Among-append_left (y ∷ xs) ys x (inl e) = inl e
  Among-append_left (y ∷ xs) ys x (inr h) = inr (Among-append_left xs ys x h)

  pub Among-append_right : (xs ys : List A) (x : A) → Among ys x → Among (xs ++ ys) x
  Among-append_right [] ys x h = h
  Among-append_right (y ∷ xs) ys x h = inr (Among-append_right xs ys x h)

module _ {ℓ κ μ} {A : Type ℓ} (P : A → Type κ) (Q : A → Type μ) where
  pub All-mono : ((x : A) → P x → Q x) → (xs : List A) → All P xs → All Q xs
  All-mono f [] h = tt
  All-mono f (x ∷ xs) (h, hs) = (f x h, All-mono f xs hs)

module _ {A B : Type 0} (f : A → B) where
  Among-map : (xs : List A) (x : A) → Among xs x → Among (map f xs) (f x)
  Among-map [] x h = h
  Among-map (y ∷ xs) x (inl e) = inl (ap f e)
  Among-map (y ∷ xs) x (inr h) = inr (Among-map xs x h)

  pub All-map : (xs ys : List A) → All (Among xs) ys → All (Among (map f xs)) (map f ys)
  All-map xs [] h = tt
  All-map xs (y ∷ ys) (h, hs) = (Among-map xs y h, All-map xs ys hs)
