-- ===== src/Base/Decimal.antt =====
-- Numbers in decimal digits.
use Prim.Native.Nat.{ℕ, zero, suc, ◌+◌, ◌-◌, ◌*◌, ◌/◌, ◌%◌, ◌≤◌}
use mathlib.Core.Path.{◌≡◌, refl, ◌∙◌}
use mathlib.Core.Bool.{Bool, true, not, ◌&&◌}
use mathlib.Core.List.{[], ◌∷◌}
use native.Mathlib.Omega.{arith}
use jitdi.Base.Tests.{ltb, if◌then◌else◌}
use jitdi.Base.Text.{Bytes}

-- The digits of `n` in front of `out`, in as many rounds as the first number allows.
unfoldable pub digits : ℕ → ℕ → Bytes → Bytes
digits zero n out = out
digits (suc k) zero out = out
digits (suc k) (suc n) out = digits k (suc n / 10) ((b'0' + suc n % 10) ∷ out)

-- `%d` of fmt; a number has no more digits than its value.
unfoldable pub decimal : ℕ → Bytes
unfolding digits
decimal zero = b'0' ∷ []
decimal (suc n) = digits (suc n) (suc n) []

abbrev pub is_digit : ℕ → Bool
is_digit c = not (ltb c b'0') && not (ltb b'9' c)

-- The number that the digits at the beginning write, behind those of `n`.
unfoldable pub scan_digits : Bytes → ℕ → ℕ
scan_digits [] n = n
scan_digits (c ∷ s) n =
    let rest = scan_digits s (n * 10 + (c - b'0')) in if is_digit c then rest else n

scan_last : (n : ℕ) (out : Bytes) → scan_digits ((b'0' + n % 10) ∷ out) (n / 10) ≡ scan_digits out n
unfolding scan_digits
scan_last n out = ground arith

scan_digits-digits :
    (k n : ℕ) (out : Bytes) → n ≤ k → scan_digits (digits k n out) 0 ≡ scan_digits out n
unfolding digits
scan_digits-digits zero n out h = ground arith
scan_digits-digits (suc k) zero out h = refl
scan_digits-digits (suc k) (suc n) out h =
    scan_digits-digits k (suc n / 10) ((b'0' + suc n % 10) ∷ out) (omega arith)
    ∙ scan_last (suc n) out

-- The text of a number reads back as the number.
pub scan_digits-decimal : (n : ℕ) → scan_digits (decimal n) 0 ≡ n
unfolding decimal scan_digits
scan_digits-decimal zero = refl
scan_digits-decimal (suc n) = scan_digits-digits (suc n) (suc n) [] (omega arith)

abbrev pub Starts : Bytes → Type 0
Starts [] = ⊥
Starts (c ∷ s) = is_digit c ≡ true

is_digit_last : (n : ℕ) → is_digit (b'0' + n % 10) ≡ true
is_digit_last n = ground arith

digits-Starts : (k n : ℕ) (out : Bytes) → Starts out → Starts (digits k n out)
unfolding digits
digits-Starts zero n out h = h
digits-Starts (suc k) zero out h = h
digits-Starts (suc k) (suc n) out h =
    digits-Starts k (suc n / 10) ((b'0' + suc n % 10) ∷ out) (is_digit_last (suc n))

pub decimal-Starts : (n : ℕ) → Starts (decimal n)
unfolding decimal digits
decimal-Starts zero = refl
decimal-Starts (suc n) =
    digits-Starts n (suc n / 10) ((b'0' + suc n % 10) ∷ []) (is_digit_last (suc n))
