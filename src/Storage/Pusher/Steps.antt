-- ===== src/Storage/Pusher/Steps.antt =====
-- pkg/storage/local.go: what each call of a push leaves, where none fails and what it writes is sound.
use jitdi.Base.{
  ◌≡◌, refl, sym, subst, ap, ◌∙◌, true, Bool-cases, inl, inr, some, All, List, [], ◌∷◌, arith,
  Bytes, lookup, lookup-insert, bytes_eq, bytes_eq_iff, bytes_eq_refl, if◌then◌else◌,
}
use jitdi.Exec.{Result, ok, nothing, ◌>>◌}
use jitdi.Exec.Outcome.{bind_ok}
use jitdi.Disk.{Disk, M}
use jitdi.Container.{Hash, Layer}
use jitdi.Atomic.Files.{write_file}
use jitdi.Atomic.Files.Outcomes.{write_file_no_fault, write_file-faults}
use jitdi.Storage.Paths.{
  local_blob_path, local_manifest_path, IsHex, local_blob_path-injective,
  local_manifest_path-ne-local_blob_path,
}
use jitdi.Storage.Layers.{save_layer}
use jitdi.Storage.Layers.Addressed.{IsAddressed}
use jitdi.Storage.Layers.Saved.{IsSound, sound_digest, sound_digest-IsHex, save_layer-Saved}
use jitdi.Storage.Pusher.{each}

-- Where there was a file there is one.
abbrev pub Grows : List (Bytes × Bytes) → List (Bytes × Bytes) → Type 0
Grows files files' =
    (p s : Bytes) → lookup p files ≡ some s → (s' : Bytes) × (lookup p files' ≡ some s')

-- The same files but for the contents of one.
abbrev Put : Bytes → Bytes → List (Bytes × Bytes) → List (Bytes × Bytes) → Type 0
Put path c files files' =
    (p : Bytes) → lookup p files' ≡ (if bytes_eq path p then some c else lookup p files)

Put-Grows :
    (path c : Bytes) (files files' : List (Bytes × Bytes))
    → Put path c files files'
    → Grows files files'
Put-Grows path c files files' put p s e = elim (Bool-cases (bytes_eq path p)) [
  | inl same ↦ (c, ground (arith, put p, same))
  | inr other ↦ (s, ground (arith, put p, other, e))
]

-- The call returned no error, no fault is left and no file has gone.
pub record Went (d : Disk) (r : Result (Unit {0}) × Disk) : Type 0 where
  pub returned : r.0 ≡ ok nothing
  pub calm : r.1.faults ≡ []
  pub grows : Grows d.files r.1.files

pub Went-ok : (d : Disk) (r : Result (Unit {0}) × Disk) → Went d r → r ≡ (ok nothing, r.1)
Went-ok d r w = ap (λ a. (a, r.1)) w.returned

pub Went-trans :
    (d : Disk) (m k : M (Unit {0})) → Went d (m d) → Went (m d).1 (k (m d).1) → Went d ((m >> k) d)
Went-trans d m k w v = subst (Went d) (sym (bind_ok m (λ _. k) (Went-ok d (m d) w))) (record {
  returned = v.returned;
  calm = v.calm;
  grows = λ p s e. let (s', e') = w.grows p s e in v.grows p s' e';
})

module _ (sum_sha256 : Bytes → Bytes) (cache : Bytes) where
  -- What may be put at a path: at that of a blob, the contents of that digest.
  abbrev Fits : Bytes → Bytes → Type 0
  Fits path c = (hex : Bytes) → IsHex hex → path ≡ local_blob_path cache hex → sum_sha256 c ≡ hex

  Put-IsAddressed :
      (path c : Bytes) (files files' : List (Bytes × Bytes))
      → Fits path c
      → Put path c files files'
      → IsAddressed sum_sha256 cache files
      → IsAddressed sum_sha256 cache files'
  Put-IsAddressed path c files files' fits put a hex s p l =
      elim (Bool-cases (bytes_eq path (local_blob_path cache hex))) [
        | inl same ↦ ground (
          arith,
          put (local_blob_path cache hex),
          same,
          l,
          fits hex p ((bytes_eq_iff path (local_blob_path cache hex)).0 same),
        )
        | inr other ↦ a hex s p (ground (arith, put (local_blob_path cache hex), other, l))
      ]

  pub blob-Fits : (h c : Bytes) → IsHex h → sum_sha256 c ≡ h → Fits (local_blob_path cache h) c
  blob-Fits h c p e hex q same = e ∙ local_blob_path-injective cache h hex p q same

  pub manifest-Fits :
      (cache_manifest name tag c : Bytes) → Fits (local_manifest_path cache_manifest name tag) c
  manifest-Fits cm name tag c hex p same =
      absurd (local_manifest_path-ne-local_blob_path cm name tag cache hex p same)

  -- The blob of a digest is there and has that digest.
  abbrev pub IsKept : List (Bytes × Bytes) → Bytes → Type 0
  IsKept files hex =
      (s : Bytes) × (lookup (local_blob_path cache hex) files ≡ some s) × (sum_sha256 s ≡ hex)

  pub Grows-IsKept :
      (files files' : List (Bytes × Bytes)) (hex : Bytes)
      → IsHex hex
      → IsAddressed sum_sha256 cache files'
      → Grows files files'
      → IsKept files hex
      → IsKept files' hex
  Grows-IsKept files files' hex p a g (s, e, _) =
      let (s', e') = g (local_blob_path cache hex) s e in (s', e', a hex s' p e')

  -- A file that is written whole.
  pub write_file-Went :
      (path c : Bytes) (d : Disk)
      → d.faults ≡ []
      → Fits path c
      → IsAddressed sum_sha256 cache d.files
      → Went d (write_file path c d)
        × IsAddressed sum_sha256 cache (write_file path c d).1.files
        × (lookup path (write_file path c d).1.files ≡ some c)
  write_file-Went path c d calm fits a =
      let (returned, put) = write_file_no_fault path c d calm in
      let files' = (write_file path c d).1.files in
      (
        record {
          returned = returned;
          calm = write_file-faults path c d calm;
          grows = Put-Grows path c d.files files' put;
        },
        Put-IsAddressed path c d.files files' fits put a,
        ground (arith, put path, bytes_eq_refl path),
      )

  -- The blob of a layer's digest is there.
  abbrev pub KeepsLayer : List (Bytes × Bytes) → Layer → Type 0
  KeepsLayer files layer = (h : Hash) → layer.digest true ≡ ok h → IsKept files h.hex

  Grows-KeepsLayer :
      (files files' : List (Bytes × Bytes)) (layer : Layer)
      → IsSound sum_sha256 layer
      → IsAddressed sum_sha256 cache files'
      → Grows files files'
      → KeepsLayer files layer
      → KeepsLayer files' layer
  Grows-KeepsLayer files files' layer sound a g kept h e =
      Grows-IsKept files files' h.hex (sound_digest-IsHex sum_sha256 layer sound h e) a g (kept h e)

  pub Grows-KeepsLayers :
      (files files' : List (Bytes × Bytes)) (layers : List Layer)
      → All (IsSound sum_sha256) layers
      → IsAddressed sum_sha256 cache files'
      → Grows files files'
      → All (KeepsLayer files) layers
      → All (KeepsLayer files') layers
  Grows-KeepsLayers files files' [] sound a g kept = tt
  Grows-KeepsLayers files files' (layer ∷ layers) (s, sound) a g (k, kept) = (
    Grows-KeepsLayer files files' layer s a g k,
    Grows-KeepsLayers files files' layers sound a g kept,
  )

  save_layer-Went :
      (layer : Layer) (d : Disk)
      → d.faults ≡ []
      → IsSound sum_sha256 layer
      → IsAddressed sum_sha256 cache d.files
      → Went d (save_layer layer cache d)
        × IsAddressed sum_sha256 cache (save_layer layer cache d).1.files
        × KeepsLayer (save_layer layer cache d).1.files layer
  save_layer-Went layer d calm sound a =
      let saved = save_layer-Saved sum_sha256 cache layer sound d calm in
      let files' = (save_layer layer cache d).1.files in
      let path = local_blob_path cache sound.digest.hex in
      let rest : Grows d.files files'
          × ((s : Bytes) × (lookup path files' ≡ some s))
          × IsAddressed sum_sha256 cache files' =
        elim saved.outcome [
          | inl (s, e, same) ↦ (
            (λ p s' e'. (s', ap (lookup p) same ∙ e')),
            (s, ap (lookup path) same ∙ e),
            subst (IsAddressed sum_sha256 cache) (sym same) a,
          )
          | inr same ↦
              let put : Put path sound.contents d.files files' =
                λ p. ap (lookup p) same ∙ lookup-insert path p sound.contents d.files in
              (
                Put-Grows path sound.contents d.files files' put,
                (sound.contents, put path ∙ rw (bytes_eq_refl path) refl),
                Put-IsAddressed path sound.contents d.files files'
                    (blob-Fits sound.digest.hex sound.contents sound.hex sound.summed) put a,
              )
        ] in
      (
        record { returned = saved.returned; calm = saved.calm; grows = rest.0 },
        rest.2,
        λ h e.
            subst (λ (h : Hash). IsKept files' h.hex) (sound_digest sum_sha256 layer sound h e)
              (rest.1.0, rest.1.1, rest.2 sound.digest.hex rest.1.0 sound.hex rest.1.1),
      )

  pub save_layers-Went :
      (layers : List Layer) (d : Disk)
      → d.faults ≡ []
      → All (IsSound sum_sha256) layers
      → IsAddressed sum_sha256 cache d.files
      → Went d (each (λ layer. save_layer layer cache) layers d)
        × IsAddressed sum_sha256 cache (each (λ layer. save_layer layer cache) layers d).1.files
        × All (KeepsLayer (each (λ layer. save_layer layer cache) layers d).1.files) layers
  unfolding each
  save_layers-Went [] d calm sound a =
      (record { returned = refl; calm = calm; grows = λ p s e. (s, e) }, a, tt)
  save_layers-Went (layer ∷ layers) d calm (s, sound) a =
      let (went, a', kept) = save_layer-Went layer d calm s a in
      let d' = (save_layer layer cache d).1 in
      let rest = save_layers-Went layers d' went.calm sound a' in
      let all : M (Unit {0}) = each (λ layer. save_layer layer cache) layers in
      let eq =
        bind_ok (save_layer layer cache) (λ _. all) (Went-ok d (save_layer layer cache d) went) in
      (
        Went-trans d (save_layer layer cache) all went rest.0,
        subst (λ r. IsAddressed sum_sha256 cache r.1.files) (sym eq) rest.1,
        subst (λ r. All (KeepsLayer r.1.files) (layer ∷ layers)) (sym eq)
            (Grows-KeepsLayer d'.files (all d').1.files layer s rest.1 rest.0.grows kept, rest.2),
      )
