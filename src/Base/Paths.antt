-- ===== src/Base/Paths.antt =====
-- `path.Clean` and `path.Join` of Go, by the parts between slashes.
pub mod Last
pub mod Parent
use Prim.Native.Nat.{ℕ}
use mathlib.Core.Path.{◌≡◌, refl, sym, ap, ◌∙◌}
use mathlib.Core.Logic.{◌≢◌}
use mathlib.Core.Bool.{Bool, true, false, ◌||◌}
use mathlib.Core.List.{List, [], ◌∷◌, ◌++◌, append-nil, append_assoc, reverse-cons, reverse}
use native.Mathlib.Omega.{arith}
use jitdi.Base.Tests.{◌==◌, if◌then◌else◌}
use jitdi.Base.Text.{Bytes, codes, bytes_eq, bytes_eq_iff, Lacks}
use jitdi.Base.Split.{split, join, split-append, split-Lacks}

unfoldable pub is_rooted : Bytes → Bool
is_rooted [] = false
is_rooted (c ∷ s) = c == b'/'

-- A part ".." takes the part before it away, unless there is none; under the root it is dropped.
unfoldable pub go_up : Bool → List Bytes → List Bytes
unfolding bytes_eq
go_up true [] = []
go_up false [] = codes ".." ∷ []
go_up rooted (top ∷ done) = if bytes_eq top (codes "..") then codes ".." ∷ top ∷ done else done

unfoldable pub clean_part : Bool → List Bytes → Bytes → List Bytes
unfolding bytes_eq go_up
clean_part rooted done part =
    if bytes_eq part [] || bytes_eq part (codes ".")
    then done
    else if bytes_eq part (codes "..")
    then go_up rooted done
    else part ∷ done

-- The parts that are kept, the last one first.
unfoldable pub clean_parts : Bool → List Bytes → List Bytes → List Bytes
unfolding clean_part
clean_parts rooted [] done = done
clean_parts rooted (part ∷ parts) done = clean_parts rooted parts (clean_part rooted done part)

or_dot : Bytes → Bytes
or_dot [] = codes "."
or_dot (c ∷ s) = c ∷ s

unfoldable pub clean : Bytes → Bytes
unfolding is_rooted clean_parts split join or_dot
clean p =
    let parts = clean_parts (is_rooted p) (split b'/' p) [] in
    let out = join (codes "/") (reverse parts) in if is_rooted p then b'/' ∷ out else or_dot out

non_empty : List Bytes → List Bytes
non_empty [] = []
non_empty ([] ∷ elems) = non_empty elems
non_empty ((c ∷ s) ∷ elems) = (c ∷ s) ∷ non_empty elems

clean_joined : List Bytes → Bytes
clean_joined [] = []
clean_joined (e ∷ elems) = clean (join (codes "/") (e ∷ elems))

unfoldable pub path_join : List Bytes → Bytes
unfolding clean non_empty clean_joined
path_join elems = clean_joined (non_empty elems)

-- A name that `Clean` leaves as it is.
abbrev pub IsPlainName : Bytes → Type 0
IsPlainName n = Lacks b'/' n × (n ≢ []) × (n ≢ codes ".") × (n ≢ codes "..")

slashed : List Bytes → Bytes
slashed [] = []
slashed (p ∷ ps) = (p ++ b'/' ∷ []) ++ slashed ps

join-snoc : (ps : List Bytes) (n : Bytes) → join (codes "/") (ps ++ n ∷ []) ≡ slashed ps ++ n
unfolding slashed join
join-snoc [] n = refl
join-snoc (p ∷ []) n = rw append-nil
join-snoc (p ∷ q ∷ ps) n =
    ap (λ t. (p ++ b'/' ∷ []) ++ t) (join-snoc (q ∷ ps) n)
    ∙ sym (append_assoc (p ++ b'/' ∷ []) (slashed (q ∷ ps)) n)

-- The path of the directory itself, with a slash behind it if it is not empty.
pub child_prefix : Bytes → Bytes
child_prefix dir =
    (if is_rooted dir then b'/' ∷ [] else [])
    ++ slashed (reverse (clean_parts (is_rooted dir) (split b'/' dir) []))

clean_parts-append :
    (r : Bool) (xs ys done : List Bytes)
    → clean_parts r (xs ++ ys) done ≡ clean_parts r ys (clean_parts r xs done)
unfolding clean_parts
clean_parts-append r [] ys done = refl
clean_parts-append r (x ∷ xs) ys done = clean_parts-append r xs ys (clean_part r done x)

clean_part_plain :
    (r : Bool) (done : List Bytes) (n : Bytes) → IsPlainName n → clean_part r done n ≡ n ∷ done
unfolding clean_part
clean_part_plain r done n h =
    ground (arith, bytes_eq_iff n [], bytes_eq_iff n (codes "."), bytes_eq_iff n (codes ".."))

or_dot_append : (a : Bytes) (n : Bytes) → n ≢ [] → or_dot (a ++ n) ≡ a ++ n
unfolding or_dot
or_dot_append [] [] h = absurd (h refl)
or_dot_append [] (c ∷ n) h = refl
or_dot_append (c ∷ a) n h = refl

rooted_or_dot :
    (b : Bool) (a n : Bytes)
    → n ≢ []
    → (if b then b'/' ∷ (a ++ n) else or_dot (a ++ n)) ≡ ((if b then b'/' ∷ [] else []) ++ a) ++ n
rooted_or_dot true a n h = refl
rooted_or_dot false a n h = or_dot_append a n h

-- From the kept parts of a directory and a plain name to the cleaned path.
clean_out :
    (b : Bool) (parts : List Bytes) (n : Bytes)
    → n ≢ []
    → (if b
        then b'/' ∷ join (codes "/") (reverse (n ∷ parts))
        else or_dot (join (codes "/") (reverse (n ∷ parts))))
      ≡ ((if b then b'/' ∷ [] else []) ++ slashed (reverse parts)) ++ n
clean_out b parts n h =
    rw (reverse-cons, join-snoc (reverse parts) n) (rooted_or_dot b (slashed (reverse parts)) n h)

clean_parts_one :
    (b : Bool) (done : List Bytes) (n : Bytes) → clean_parts b (n ∷ []) done ≡ clean_part b done n
unfolding clean_parts
clean_parts_one b done n = refl

kept_child :
    (b : Bool) (dir n : Bytes)
    → IsPlainName n
    → clean_parts b (split b'/' (dir ++ b'/' ∷ n)) [] ≡ n ∷ clean_parts b (split b'/' dir) []
kept_child b dir n h =
    rw (split-append b'/' dir n, split-Lacks b'/' n h.0, clean_parts-append)
      (clean_parts_one b (clean_parts b (split b'/' dir) []) n ∙ clean_part_plain b _ n h)

clean_lem :
    (p : Bytes)
    → clean p ≡ (
        if is_rooted p
        then b'/' ∷ join (codes "/") (reverse (clean_parts (is_rooted p) (split b'/' p) []))
        else or_dot (join (codes "/") (reverse (clean_parts (is_rooted p) (split b'/' p) []))))
unfolding clean
clean_lem p = refl

is_rooted-append : (c : ℕ) (a b : Bytes) → is_rooted ((c ∷ a) ++ b) ≡ is_rooted (c ∷ a)
unfolding is_rooted
is_rooted-append c a b = refl

clean_child :
    (c : ℕ) (dir n : Bytes)
    → IsPlainName n
    → clean ((c ∷ dir) ++ b'/' ∷ n) ≡ child_prefix (c ∷ dir) ++ n
unfolding child_prefix
clean_child c dir n h =
    rw
      (clean_lem, is_rooted-append c dir (b'/' ∷ n), kept_child (is_rooted (c ∷ dir)) (c ∷ dir) n h)
      (clean_out (is_rooted (c ∷ dir)) (clean_parts (is_rooted (c ∷ dir)) (split b'/' (c ∷ dir)) [])
        n h.1)

is_rooted_plain : (n : Bytes) → Lacks b'/' n → is_rooted n ≡ false
unfolding is_rooted
is_rooted_plain [] h = refl
is_rooted_plain (c ∷ n) h = ground arith

clean_plain : (n : Bytes) → IsPlainName n → clean n ≡ n
unfolding slashed
clean_plain n h =
    rw
      (
        clean_lem,
        is_rooted_plain n h.0,
        split-Lacks b'/' n h.0,
        clean_parts_one,
        clean_part_plain false [] n h,
      )
      (clean_out false [] n h.1)

path_join_one : (d : ℕ) (n : Bytes) → path_join ([] ∷ (d ∷ n) ∷ []) ≡ clean (d ∷ n)
unfolding path_join
path_join_one d n = refl

path_join_two :
    (c : ℕ) (dir : Bytes) (d : ℕ) (n : Bytes)
    → path_join ((c ∷ dir) ∷ (d ∷ n) ∷ []) ≡ clean ((c ∷ dir) ++ b'/' ∷ d ∷ n)
unfolding path_join join
path_join_two c dir d n = ap clean (append_assoc (c ∷ dir) (codes "/") (d ∷ n))

child_prefix_nil : (n : Bytes) → n ≡ child_prefix [] ++ n
unfolding child_prefix is_rooted split clean_parts slashed
child_prefix_nil n = refl

-- A plain name joined to a directory is that directory's prefix with the name behind it.
pub path_join_child :
    (dir n : Bytes) → IsPlainName n → path_join (dir ∷ n ∷ []) ≡ child_prefix dir ++ n
path_join_child dir [] h = absurd (h.1 refl)
path_join_child [] (d ∷ n) h =
    path_join_one d n ∙ clean_plain (d ∷ n) h ∙ (child_prefix_nil (d ∷ n))
path_join_child (c ∷ dir) (d ∷ n) h = path_join_two c dir d n ∙ clean_child c dir (d ∷ n) h
