-- ===== src/Base/Paths/Parent.antt =====
-- `path.Join` of several elements, by its last one.
use Prim.Native.Nat.{ℕ}
use mathlib.Core.Path.{◌≡◌, refl, sym, ap, ◌∙◌}
use mathlib.Core.Logic.{◌≢◌, ◌⊎◌, inl, inr}
use mathlib.Core.List.{List, [], ◌∷◌, ◌++◌, append_assoc}
use jitdi.Base.Text.{Bytes, codes}
use jitdi.Base.Split.{join}
use jitdi.Base.Paths.{path_join, path_join_two, non_empty, clean_joined, clean, IsPlainName}
use jitdi.Base.Paths.Last.{path_base, path_base-path_join}

join_snoc :
    (p : Bytes) (ps : List Bytes) (n : Bytes)
    → join (codes "/") (p ∷ (ps ++ n ∷ [])) ≡ join (codes "/") (p ∷ ps) ++ b'/' ∷ n
unfolding join
join_snoc p [] n = append_assoc p (codes "/") n
join_snoc p (q ∷ ps) n =
    ap (λ t. (p ++ codes "/") ++ t) (join_snoc q ps n)
    ∙ sym (append_assoc (p ++ codes "/") (join (codes "/") (q ∷ ps)) (b'/' ∷ n))

non_empty_snoc :
    (d : ℕ) (n : Bytes) (xs : List Bytes)
    → non_empty (xs ++ (d ∷ n) ∷ []) ≡ non_empty xs ++ (d ∷ n) ∷ []
unfolding non_empty
non_empty_snoc d n [] = refl
non_empty_snoc d n ([] ∷ xs) = non_empty_snoc d n xs
non_empty_snoc d n ((c ∷ s) ∷ xs) = ap (λ t. (c ∷ s) ∷ t) (non_empty_snoc d n xs)

non_empty-cases :
    (xs : List Bytes)
    → (non_empty xs ≡ [])
      ⊎ ((c : ℕ) × (s : Bytes) × (ps : List Bytes) × (non_empty xs ≡ (c ∷ s) ∷ ps))
unfolding non_empty
non_empty-cases [] = inl refl
non_empty-cases ([] ∷ xs) = non_empty-cases xs
non_empty-cases ((c ∷ s) ∷ xs) = inr (c, s, non_empty xs, refl)

path_join_lem : (xs : List Bytes) → path_join xs ≡ clean_joined (non_empty xs)
unfolding path_join
path_join_lem xs = refl

join_dir :
    (c : ℕ) (s : Bytes) (ps : List Bytes)
    → (s' : Bytes) × (join (codes "/") ((c ∷ s) ∷ ps) ≡ c ∷ s')
unfolding join
join_dir c s [] = (s, refl)
join_dir c s (p ∷ ps) = ((s ++ codes "/") ++ join (codes "/") (p ∷ ps), refl)

clean_joined_two :
    (c : ℕ) (s : Bytes) (ps : List Bytes) (d : ℕ) (n : Bytes)
    → clean_joined ((c ∷ s) ∷ (ps ++ (d ∷ n) ∷ []))
      ≡ path_join (join (codes "/") ((c ∷ s) ∷ ps) ∷ (d ∷ n) ∷ [])
unfolding clean_joined
clean_joined_two c s ps d n =
    let (s', e) = join_dir c s ps in
    ap clean (join_snoc (c ∷ s) ps (d ∷ n) ∙ ap (λ t. t ++ b'/' ∷ d ∷ n) e)
    ∙ sym (path_join_two c s' d n)
    ∙ ap (λ t. path_join (t ∷ (d ∷ n) ∷ [])) (sym e)

clean_joined_one : (d : ℕ) (n : Bytes) → clean_joined ((d ∷ n) ∷ []) ≡ path_join ([] ∷ (d ∷ n) ∷ [])
unfolding clean_joined path_join non_empty
clean_joined_one d n = refl

-- The directory of the last element.
last_of :
    (n : Bytes)
    → n ≢ []
    → (xs : List Bytes) → (dir : Bytes) × (path_join (xs ++ n ∷ []) ≡ path_join (dir ∷ n ∷ []))
last_of [] h xs = absurd (h refl)
last_of (d ∷ n) h xs =
    let start = path_join_lem (xs ++ (d ∷ n) ∷ []) ∙ ap clean_joined (non_empty_snoc d n xs) in
    elim (non_empty-cases xs) [
      | inl e ↦ ([], start ∙ ap (λ t. clean_joined (t ++ (d ∷ n) ∷ [])) e ∙ clean_joined_one d n)
      | inr (c, s, ps, e) ↦ (
        join (codes "/") ((c ∷ s) ∷ ps),
        start ∙ ap (λ t. clean_joined (t ++ (d ∷ n) ∷ [])) e ∙ clean_joined_two c s ps d n,
      )
    ]

pub path_base-path_join_last :
    (n : Bytes) → IsPlainName n → (xs : List Bytes) → path_base (path_join (xs ++ n ∷ [])) ≡ n
path_base-path_join_last n h xs =
    let (dir, e) = last_of n h.1 xs in ap path_base e ∙ path_base-path_join dir n h
