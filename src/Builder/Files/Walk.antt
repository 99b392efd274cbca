-- ===== src/Builder/Files/Walk.antt =====
-- pkg/builder/files/files.go: which files a directory of the host gives, and how often.
use jitdi.Base.{
  ℕ, ◌+◌, ◌*◌, ◌≡◌, refl, sym, List, [], ◌∷◌, ◌++◌, Bytes, length, length-append, All, All-append,
  All-mono, Among, Among-append_left, Among-append_right, IsPlainName, path_join, path_base,
  path_base-path_join, arith, inl,
}
use jitdi.Exec.{Result, ok}
use jitdi.Exec.Pure.{◌>>=◌}
use jitdi.Builder.Tar.{Reader, File}
use jitdi.Builder.Files.{
  Node, file, dir, closed, Entries, end, entry, tar_file_to_file, visit, walk,
}

-- Every directory can be read, every name is one that a file can have, and `Q` holds of what opening
-- a file returns.
module _ (Q : Result (Reader × ℕ) → Type 0) where
  abbrev mutual
    pub IsReadable : Node → Type 0
    IsReadable (file opened) = Q opened
    IsReadable (dir es) = AreReadable es
    IsReadable (closed e) = ⊥

    pub AreReadable : Entries → Type 0
    AreReadable end = Unit
    AreReadable (entry name node es) = IsPlainName name × IsReadable node × AreReadable es

-- The number of files, each counted twice for every directory below the root that it lies in.
abbrev mutual
  pub node_weight : Node → ℕ
  node_weight (file opened) = 1
  node_weight (dir es) = 2 * weight es
  node_weight (closed e) = 0

  pub weight : Entries → ℕ
  weight end = 0
  weight (entry name node es) = node_weight node + weight es

module _ (mode : ℕ) where
  -- The files as they lie under the directory, moved to `new_path`.
  abbrev mutual
    pub node_tree : Node → Bytes → Bytes → List File
    node_tree (file opened) name new_path =
        tar_file_to_file mode opened (path_join (new_path ∷ name ∷ [])) ∷ []
    node_tree (dir es) name new_path = tree es (path_join (new_path ∷ name ∷ []))
    node_tree (closed e) name new_path = []

    pub tree : Entries → Bytes → List File
    tree end new_path = []
    tree (entry name node es) new_path = node_tree node name new_path ++ tree es new_path

  -- All of these files directly in `new_path`.
  abbrev mutual
    pub node_flat : Node → Bytes → Bytes → List File
    node_flat (file opened) name new_path =
        tar_file_to_file mode opened (path_join (new_path ∷ name ∷ [])) ∷ []
    node_flat (dir es) name new_path = flat es new_path
    node_flat (closed e) name new_path = []

    pub flat : Entries → Bytes → List File
    flat end new_path = []
    flat (entry name node es) new_path = node_flat node name new_path ++ flat es new_path

left_Among : (a b t : List File) → All (Among a) t → All (Among (a ++ b)) t
left_Among a b t = All-mono (Among a) (Among (a ++ b)) (λ x. Among-append_left a b x) t

right_Among : (a b t : List File) → All (Among b) t → All (Among (a ++ b)) t
right_Among a b t = All-mono (Among b) (Among (a ++ b)) (λ x. Among-append_right a b x) t

-- Two walks whose files are put together.
abbrev both : Result (List File) → Result (List File) → Result (List File)
both r s = do a ← r; b ← s; ok (a ++ b)

module _ (Q : Result (Reader × ℕ) → Type 0) where
  -- A walk returns files, as many as `n`, of each of which `Q` holds, all those of `t` and all those of
  -- `v` among them.
  abbrev pub Gives : Result (List File) → List File → List File → ℕ → Type 0
  Gives r t v n =
      (fs : List File) × (r ≡ ok fs)
      × All (Among fs) t
      × All (Among fs) v
      × (length fs ≡ n)
      × All (λ (f : File). Q f.open_reader) fs

  -- The files of a directory are those of `t` by the first walk, and those of `w` by the second.
  both-dir :
      (r s : Result (List File)) (t u v w : List File) (n : ℕ)
      → Gives r t v n
      → Gives s u w n
      → Gives (both r s) t w (2 * n)
  both-dir r s t u v w n (a, ea, ta, va, la, qa) (b, eb, ub, wb, lb, qb) = (
    a ++ b,
    rw (ea, eb) refl,
    left_Among a b t ta,
    right_Among a b w wb,
    omega (arith, length-append a b, la, lb),
    All-append (λ (f : File). Q f.open_reader) a b qa qb,
  )

  both-entry :
      (r s : Result (List File)) (t u v w : List File) (m n : ℕ)
      → Gives r t v m
      → Gives s u w n
      → Gives (both r s) (t ++ u) (v ++ w) (m + n)
  both-entry r s t u v w m n (a, ea, ta, va, la, qa) (b, eb, ub, wb, lb, qb) = (
    a ++ b,
    rw (ea, eb) refl,
    All-append (Among (a ++ b)) t u (left_Among a b t ta) (right_Among a b u ub),
    All-append (Among (a ++ b)) v w (left_Among a b v va) (right_Among a b w wb),
    omega (arith, length-append a b, la, lb),
    All-append (λ (f : File). Q f.open_reader) a b qa qb,
  )

module _ (Q : Result (Reader × ℕ) → Type 0) (mode : ℕ) where
  mutual
    unfolding visit walk tar_file_to_file

    visit-Gives :
        (node : Node) (p new_path name : Bytes)
        → path_base p ≡ name
        → IsReadable Q node
        → Gives Q
            (visit mode node p new_path)
            (node_tree mode node name new_path)
            (node_flat mode node name new_path)
            (node_weight node)
    visit-Gives (file opened) p new_path name e q =
        rw (sym e) (_ ∷ [], refl, (inl refl, tt), (inl refl, tt), refl, (q, tt))
    visit-Gives (closed err') p new_path name e h = absurd h
    visit-Gives (dir es) p new_path name e h = rw (sym e) (
        both-dir Q _ _ _ _ _ _ (weight es)
          (walk-Gives es p (path_join (new_path ∷ path_base p ∷ [])) h)
          (walk-Gives es p new_path h))

    pub walk-Gives :
        (es : Entries) (host_path new_path : Bytes)
        → AreReadable Q es
        → Gives Q
            (walk mode es host_path new_path)
            (tree mode es new_path)
            (flat mode es new_path)
            (weight es)
    walk-Gives end host_path new_path h = ([], refl, tt, tt, refl, tt)
    walk-Gives (entry name node es) host_path new_path (plain, here, rest) =
        both-entry Q _ _ _ _ _ _ (node_weight node) (weight es)
          (visit-Gives node (path_join (host_path ∷ name ∷ [])) new_path name
            (path_base-path_join host_path name plain) here)
          (walk-Gives es host_path new_path rest)
