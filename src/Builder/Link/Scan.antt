-- ===== src/Builder/Link/Scan.antt =====
-- pkg/builder/cache_file_layer.go: the text of a link reads back.
use jitdi.Base.{
  ℕ, ◌≡◌, ◌≢◌, ◌≤◌, refl, ap, ◌∙◌, true, false, [], ◌∷◌, ◌++◌, Bytes, decimal, is_digit,
  scan_digits, scan_digits-decimal, decimal-Starts, Starts, arith,
}
use jitdi.Exec.{ok}
use jitdi.Container.{Hash, hash_string}
use jitdi.Builder.Link.{
  is_space, skip_space, token, scan_string, scan_number, scan_signed, scan_int, scan_link_info,
  link_info, max_int64,
}

-- No white space.
abbrev pub IsWord : Bytes → Type 0
IsWord [] = Unit
IsWord (c ∷ s) = (is_space c ≡ false) × IsWord s

token-IsWord :
    (s rest : Bytes) (c : ℕ) → IsWord s → is_space c ≡ true → token (s ++ c ∷ rest) ≡ (s, c ∷ rest)
unfolding token
token-IsWord [] rest c h e = rw e refl
token-IsWord (d ∷ s) rest c (h, hs) e = rw (h, token-IsWord s rest c hs e) refl

skip_space_word : (c : ℕ) (s : Bytes) → is_space c ≡ false → skip_space (c ∷ s) ≡ ok (c ∷ s)
unfolding skip_space
skip_space_word c s h = ground arith

skip_space_one : (s : Bytes) → skip_space (b' ' ∷ s) ≡ skip_space s
unfolding skip_space
skip_space_one s = refl

scan_string_space : (s : Bytes) → scan_string (b' ' ∷ s) ≡ scan_string s
unfolding scan_string skip_space
scan_string_space s = refl

scan_string_word :
    (s rest : Bytes) → s ≢ [] → IsWord s → scan_string (s ++ b' ' ∷ rest) ≡ ok (s, b' ' ∷ rest)
unfolding scan_string
scan_string_word [] rest n h = absurd (n refl)
scan_string_word (c ∷ s) rest n h =
    rw (skip_space_word c (s ++ b' ' ∷ rest) h.0) (ap ok (token-IsWord (c ∷ s) rest b' ' h refl))

is_space_digit : (c : ℕ) → is_digit c ≡ true → is_space c ≡ false
is_space_digit c h = ground arith

scan_signed_digit :
    (c : ℕ) (s : Bytes) → is_digit c ≡ true → scan_signed (c ∷ s) ≡ scan_number max_int64 (c ∷ s)
unfolding scan_signed
scan_signed_digit c s h = ground arith

scan_number_digit :
    (c n : ℕ) (s : Bytes)
    → is_digit c ≡ true
    → scan_digits (c ∷ s) 0 ≡ n
    → n ≤ max_int64
    → scan_number max_int64 (c ∷ s) ≡ ok n
unfolding scan_number
scan_number_digit c n s h e l = ground arith

scan_int_digits :
    (s : Bytes) (n : ℕ) → Starts s → scan_digits s 0 ≡ n → n ≤ max_int64 → scan_int s ≡ ok n
unfolding scan_int
scan_int_digits [] n h e l = absurd h
scan_int_digits (c ∷ s) n h e l =
    rw (skip_space_word c s (is_space_digit c h))
      (scan_signed_digit c s h ∙ scan_number_digit c n s h e l)

scan_int-decimal : (n : ℕ) → n ≤ max_int64 → scan_int (b' ' ∷ decimal n) ≡ ok n
unfolding scan_int
scan_int-decimal n l =
    rw (skip_space_one (decimal n))
      (scan_int_digits (decimal n) n (decimal-Starts n) (scan_digits-decimal n) l)

append-ne-nil : (a : Bytes) (c : ℕ) (s : Bytes) → a ++ c ∷ s ≢ []
append-ne-nil [] c s = λ e. cc
append-ne-nil (d ∷ a) c s = λ e. cc

hash_string-ne-nil : (h : Hash) → hash_string h ≢ []
hash_string-ne-nil h = append-ne-nil h.algorithm b':' h.hex

-- The text of a link is scanned as the texts and the number that it was made of.
pub scan_link_info-link_info :
    (h d : Hash) (n : ℕ)
    → IsWord (hash_string h)
    → IsWord (hash_string d)
    → n ≤ max_int64
    → scan_link_info (link_info h d n) ≡ ok (hash_string h, hash_string d, n)
unfolding scan_link_info link_info
scan_link_info-link_info h d n wh wd l =
    rw
      (
        scan_string_word (hash_string h) (hash_string d ++ b' ' ∷ decimal n) (hash_string-ne-nil h)
            wh,
        scan_string_space (hash_string d ++ b' ' ∷ decimal n),
        scan_string_word (hash_string d) (decimal n) (hash_string-ne-nil d) wd,
        scan_int-decimal n l,
      )
      refl
