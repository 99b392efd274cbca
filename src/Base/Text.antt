-- ===== src/Base/Text.antt =====
-- Go strings as lists of bytes: comparison, prefixes, scanning, and the `strings` functions in use.
use Prim.Native.Nat.{ℕ}
use Prim.Native.Char.{code}
use Prim.Native.String.{String}
use mathlib.Core.Path.{◌≡◌, refl, ap}
use mathlib.Core.Logic.{◌≢◌, ◌↔◌}
use mathlib.Core.Bool.{Bool, true, false, ◌&&◌}
use mathlib.Core.Option.{Option, none, some}
use mathlib.Core.List.{List, [], ◌∷◌, ◌++◌}
use native.Mathlib.Omega.{arith}
use mathlib.Core.Logic.{inl, inr}
use jitdi.Base.Tests.{◌==◌, if◌then◌else◌, Option-cases}
use jitdi.Base.Lists.{All}

abbrev pub Bytes : Type 0
Bytes = List ℕ

-- The code points of a text: its bytes, if it is ASCII.
abbrev pub codes : String → Bytes
codes String.[] = []
codes (String.◌∷◌ c s) = code c ∷ codes s

-- Go's `==` on strings.
unfoldable pub bytes_eq : Bytes → Bytes → Bool
bytes_eq [] [] = true
bytes_eq [] (y ∷ ys) = false
bytes_eq (x ∷ xs) [] = false
bytes_eq (x ∷ xs) (y ∷ ys) = x == y && bytes_eq xs ys

bytes_eq→eq : (a b : Bytes) → bytes_eq a b ≡ true → a ≡ b
unfolding bytes_eq
bytes_eq→eq [] [] h = refl
bytes_eq→eq [] (y ∷ ys) h = cc
bytes_eq→eq (x ∷ xs) [] h = cc
bytes_eq→eq (x ∷ xs) (y ∷ ys) h = ground (arith, bytes_eq→eq xs ys)

pub bytes_eq_refl : (a : Bytes) → bytes_eq a a ≡ true
unfolding bytes_eq
bytes_eq_refl [] = refl
bytes_eq_refl (x ∷ xs) = ground (arith, bytes_eq_refl xs)

pub bytes_eq_iff : (a b : Bytes) → (bytes_eq a b ≡ true) ↔ (a ≡ b)
bytes_eq_iff a b = (bytes_eq→eq a b, λ e. cc (bytes_eq_refl a, ap (λ t. bytes_eq a t) e))

-- `strings.HasPrefix` and the text behind the prefix, in one: `s[len(p):]` if `p` starts `s`.
unfoldable pub strip_prefix : Bytes → Bytes → Option Bytes
strip_prefix [] s = some s
strip_prefix (p ∷ ps) [] = none
strip_prefix (p ∷ ps) (c ∷ s) = let rest = strip_prefix ps s in if p == c then rest else none

abbrev pub is_some {ℓ} : {A : Type ℓ} → Option A → Bool
is_some none = false
is_some (some a) = true

unfoldable pub has_prefix : Bytes → Bytes → Bool
unfolding strip_prefix
has_prefix s p = is_some (strip_prefix p s)

unfoldable pub has_suffix : Bytes → Bytes → Bool
unfolding bytes_eq
has_suffix [] p = bytes_eq [] p
has_suffix (c ∷ s) p = let rest = has_suffix s p in if bytes_eq (c ∷ s) p then true else rest

pub strip_prefix-append : (p s : Bytes) → strip_prefix p (p ++ s) ≡ some s
unfolding strip_prefix
strip_prefix-append [] s = refl
strip_prefix-append (p ∷ ps) s = ground (arith, strip_prefix-append ps s)

pub strip_prefix-eq_some : (p s t : Bytes) → strip_prefix p s ≡ some t → s ≡ p ++ t
unfolding strip_prefix
strip_prefix-eq_some [] s t h = ground arith
strip_prefix-eq_some (p ∷ ps) [] t h = cc
strip_prefix-eq_some (p ∷ ps) (c ∷ s) t h = ground (arith, strip_prefix-eq_some ps s t)

-- No byte of the text is `c`.
abbrev pub Lacks : ℕ → Bytes → Type 0
Lacks c s = All (λ x. x ≢ c) s

-- The loop `for off < len(s) && s[off] != c { off++ }`: the text before, and the text from there.
unfoldable pub break_at : ℕ → Bytes → Bytes × Bytes
break_at c [] = ([], [])
break_at c (x ∷ xs) =
    let (before, rest) = break_at c xs in if x == c then ([], x ∷ xs) else (x ∷ before, rest)

pub break_at-append : (c : ℕ) (s : Bytes) → (break_at c s).0 ++ (break_at c s).1 ≡ s
unfolding break_at
break_at-append c [] = refl
break_at-append c (x ∷ xs) = ground (arith, break_at-append c xs)

pub break_at-Lacks : (c : ℕ) (s : Bytes) → Lacks c (break_at c s).0
unfolding break_at
break_at-Lacks c [] = tt
break_at-Lacks c (x ∷ xs) = ground (arith, break_at-Lacks c xs)

-- A text without `c` is passed over whole.
pub break_at_stop : (c : ℕ) (t s : Bytes) → Lacks c t → break_at c (t ++ c ∷ s) ≡ (t, c ∷ s)
unfolding break_at
break_at_stop c [] s h = ground arith
break_at_stop c (x ∷ t) s h = ground (arith, break_at_stop c t s h.1)

pub break_at_end : (c : ℕ) (t : Bytes) → Lacks c t → break_at c t ≡ (t, [])
unfolding break_at
break_at_end c [] h = refl
break_at_end c (x ∷ t) h = ground (arith, break_at_end c t h.1)

-- What is left begins with `c`, if anything is left.
pub break_at_head : (c : ℕ) (s : Bytes) (d : ℕ) (rest : Bytes) → (break_at c s).1 ≡ d ∷ rest → d ≡ c
unfolding break_at
break_at_head c [] d rest h = cc
break_at_head c (x ∷ xs) d rest h = ground (arith, break_at_head c xs d rest)

pub has_prefix→append : (s p : Bytes) → has_prefix s p ≡ true → (u : Bytes) × (s ≡ p ++ u)
unfolding has_prefix
has_prefix→append s p h = elim (Option-cases (strip_prefix p s)) [
  | inl e ↦ absurd (ground (arith, e, h))
  | inr (u, e) ↦ (u, strip_prefix-eq_some p s u e)
]
