-- ===== src/Base/Paths/Last.antt =====
-- `path.Base` of Go.
use Prim.Native.Nat.{ℕ}
use mathlib.Core.Path.{◌≡◌, refl, ap, ◌∙◌}
use mathlib.Core.Logic.{◌≢◌}
use mathlib.Core.Bool.{Bool, true, false}
use mathlib.Core.List.{List, [], ◌∷◌, ◌++◌, append_assoc, reverse}
use jitdi.Base.Tests.{if◌then◌else◌}
use jitdi.Base.Lists.{is_empty}
use jitdi.Base.Text.{Bytes, codes}
use jitdi.Base.Split.{split, split-append, split-Lacks}
use jitdi.Base.Paths.{
  path_join, path_join_child, child_prefix, slashed, is_rooted, clean_parts, IsPlainName,
}

-- The last part that is not empty.
unfoldable pub last_part : Bytes → List Bytes → Bytes
last_part d [] = d
last_part d (p ∷ ps) = last_part (if is_empty p then d else p) ps

-- The slashes at the end are passed over; a path of slashes alone is "/".
unfoldable pub path_base : Bytes → Bytes
unfolding last_part split
path_base s = if is_empty s then codes "." else last_part (codes "/") (split b'/' s)

last_part-append :
    (d : Bytes) (xs ys : List Bytes) → last_part d (xs ++ ys) ≡ last_part (last_part d xs) ys
unfolding last_part
last_part-append d [] ys = refl
last_part-append d (x ∷ xs) ys = last_part-append (if is_empty x then d else x) xs ys

last_part_one : (d n : Bytes) → n ≢ [] → last_part d (n ∷ []) ≡ n
unfolding last_part
last_part_one d [] h = absurd (h refl)
last_part_one d (c ∷ n) h = refl

last_part-slashed :
    (d : Bytes) (ps : List Bytes) (n : Bytes)
    → IsPlainName n
    → last_part d (split b'/' (slashed ps ++ n)) ≡ n
unfolding slashed
last_part-slashed d [] n h = rw (split-Lacks b'/' n h.0) (last_part_one d n h.1)
last_part-slashed d (p ∷ ps) n h =
    ap (λ (s : Bytes). last_part d (split b'/' s))
      (append_assoc (p ++ b'/' ∷ []) (slashed ps) n ∙ append_assoc p (b'/' ∷ []) (slashed ps ++ n))
    ∙ ap (last_part d) (split-append b'/' p (slashed ps ++ n))
    ∙ last_part-append d (split b'/' p) (split b'/' (slashed ps ++ n))
    ∙ last_part-slashed (last_part d (split b'/' p)) ps n h

append-ne-nil : (a n : Bytes) → n ≢ [] → a ++ n ≢ []
append-ne-nil [] n h = h
append-ne-nil (c ∷ a) n h = λ e. cc

path_base_of : (s : Bytes) → s ≢ [] → path_base s ≡ last_part (codes "/") (split b'/' s)
unfolding path_base
path_base_of [] h = absurd (h refl)
path_base_of (c ∷ s) h = refl

last_part-rooted :
    (b : Bool) (d : Bytes) (ps : List Bytes) (n : Bytes)
    → IsPlainName n
    → last_part d (split b'/' (((if b then b'/' ∷ [] else []) ++ slashed ps) ++ n)) ≡ n
last_part-rooted true d ps n h =
    ap (last_part d) (split-append b'/' [] (slashed ps ++ n))
    ∙ last_part-append d (split b'/' []) (split b'/' (slashed ps ++ n))
    ∙ last_part-slashed (last_part d (split b'/' [])) ps n h
last_part-rooted false d ps n h = last_part-slashed d ps n h

last_part-child_prefix :
    (d dir n : Bytes) → IsPlainName n → last_part d (split b'/' (child_prefix dir ++ n)) ≡ n
unfolding child_prefix
last_part-child_prefix d dir n h =
    last_part-rooted (is_rooted dir) d (reverse (clean_parts (is_rooted dir) (split b'/' dir) [])) n
      h

-- The name of a file of a directory is the last part of its path.
pub path_base-path_join : (dir n : Bytes) → IsPlainName n → path_base (path_join (dir ∷ n ∷ [])) ≡ n
path_base-path_join dir n h =
    ap path_base (path_join_child dir n h)
    ∙ path_base_of (child_prefix dir ++ n) (append-ne-nil (child_prefix dir) n h.1)
    ∙ last_part-child_prefix (codes "/") dir n h

first_or : ℕ → Bytes → ℕ
first_or d [] = d
first_or d (c ∷ s) = c

-- A letter is a name.
pub one_letter-IsPlainName : (c : ℕ) → c ≢ b'/' → c ≢ b'.' → IsPlainName (c ∷ [])
unfolding first_or
one_letter-IsPlainName c h k = ((h, tt), (λ e. cc), (λ e. k (ap (first_or c) e)), λ e. cc)
