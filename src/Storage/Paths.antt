-- ===== src/Storage/Paths.antt =====
-- pkg/storage/local.go: where a blob and a manifest lie.
use jitdi.Base.{
  ℕ, ◌≡◌, ◌≢◌, refl, sym, ap, ◌∙◌, false, [], ◌∷◌, ◌++◌, arith, Bytes, codes, Lacks, has_prefix,
  is_empty, if◌then◌else◌, path_join, path_base, path_base-path_join, path_base-path_join_last,
  child_prefix, path_join_child, IsPlainName, Bool-cases, inl, inr, subst, has_prefix→append,
  All-append,
}

unfoldable pub local_blob_path : Bytes → Bytes → Bytes
unfolding has_prefix path_join
local_blob_path cache_blobs hash =
    if is_empty hash
    then path_join (cache_blobs ∷ [])
    else if has_prefix hash (codes "sha256:")
    then path_join (cache_blobs ∷ hash ∷ [])
    else path_join (cache_blobs ∷ (codes "sha256:" ++ hash) ∷ [])

unfoldable pub local_manifest_path : Bytes → Bytes → Bytes → Bytes
unfolding path_join
local_manifest_path cache_manifest name tag =
    path_join (cache_manifest ∷ name ∷ tag ∷ codes "manifest.json" ∷ [])

-- A hash without its algorithm, in particular one in hexadecimal digits.
abbrev pub IsHex : Bytes → Type 0
IsHex h = (h ≢ []) × Lacks b'/' h × Lacks b':' h

-- The name of the file of a blob.
abbrev pub blob_name : Bytes → Bytes
blob_name h = codes "sha256:" ++ h

-- A hash without a colon does not begin with its algorithm.
has_prefix-Lacks : (h : Bytes) → Lacks b':' h → has_prefix h (codes "sha256:") ≡ false
has_prefix-Lacks h l = elim (Bool-cases (has_prefix h (codes "sha256:"))) [
  | inr e ↦ e
  | inl e ↦
      let (rest, eq) = has_prefix→append h (codes "sha256:") e in
      absurd ((subst (Lacks b':') eq l).1.1.1.1.1.1.0 refl)
]

pub blob_name-IsPlainName : (h : Bytes) → Lacks b'/' h → IsPlainName (blob_name h)
blob_name-IsPlainName h l = (
  All-append (λ x. x ≢ b'/') (codes "sha256:") h (omega arith) l,
  (λ e. cc),
  (λ e. cc),
  (λ e. cc),
)

blob_path_of :
    (cache h : Bytes)
    → h ≢ []
    → has_prefix h (codes "sha256:") ≡ false
    → local_blob_path cache h ≡ path_join (cache ∷ blob_name h ∷ [])
unfolding local_blob_path
blob_path_of cache [] ne e = absurd (ne refl)
blob_path_of cache (c ∷ h) ne e = rw e

-- A blob lies directly in the directory of blobs, under its algorithm and its digits.
pub local_blob_path_lem :
    (cache h : Bytes) → IsHex h → local_blob_path cache h ≡ child_prefix cache ++ blob_name h
local_blob_path_lem cache h (ne, slash, colon) =
    blob_path_of cache h ne (has_prefix-Lacks h colon)
    ∙ path_join_child cache (blob_name h) (blob_name-IsPlainName h slash)

abbrev rest : Bytes → Bytes
rest [] = []
rest (c ∷ s) = s

append-cancel : (a x y : Bytes) → a ++ x ≡ a ++ y → x ≡ y
append-cancel [] x y e = e
append-cancel (c ∷ a) x y e = append-cancel a x y (ap rest e)

-- Blobs of different digits lie at different paths.
pub local_blob_path-injective :
    (cache h k : Bytes)
    → IsHex h
    → IsHex k
    → local_blob_path cache h ≡ local_blob_path cache k
    → h ≡ k
local_blob_path-injective cache h k ph pk e = append-cancel (codes "sha256:") h k (
    append-cancel (child_prefix cache) (blob_name h) (blob_name k)
      (sym (local_blob_path_lem cache h ph) ∙ e ∙ local_blob_path_lem cache k pk))

path_base-local_blob_path :
    (cache h : Bytes) → IsHex h → path_base (local_blob_path cache h) ≡ blob_name h
path_base-local_blob_path cache h (ne, slash, colon) =
    ap path_base (blob_path_of cache h ne (has_prefix-Lacks h colon))
    ∙ path_base-path_join cache (blob_name h) (blob_name-IsPlainName h slash)

path_base-local_manifest_path :
    (cache name tag : Bytes)
    → path_base (local_manifest_path cache name tag) ≡ codes "manifest.json"
unfolding local_manifest_path
path_base-local_manifest_path cache name tag =
    path_base-path_join_last (codes "manifest.json") (omega arith, (λ e. cc), (λ e. cc), (λ e. cc))
      (cache ∷ name ∷ tag ∷ [])

abbrev first : Bytes → ℕ
first [] = 0
first (c ∷ s) = c

manifest-ne-blob : (h : Bytes) → codes "manifest.json" ≢ blob_name h
manifest-ne-blob h e = omega (arith, ap first e)

-- No manifest lies where a blob lies, whatever its name and its tag are.
pub local_manifest_path-ne-local_blob_path :
    (cache_manifest name tag cache_blobs h : Bytes)
    → IsHex h
    → local_manifest_path cache_manifest name tag ≢ local_blob_path cache_blobs h
local_manifest_path-ne-local_blob_path cm name tag cb h p e = manifest-ne-blob h (
    sym (path_base-local_manifest_path cm name tag)
    ∙ ap path_base e
    ∙ path_base-local_blob_path cb h p)

-- A blob is found under its digits and under the digits behind the algorithm.
pub local_blob_path_sha256 :
    (cache h : Bytes) → IsHex h → local_blob_path cache (blob_name h) ≡ local_blob_path cache h
unfolding local_blob_path
local_blob_path_sha256 cache h (ne, slash, colon) =
    sym (blob_path_of cache h ne (has_prefix-Lacks h colon))
