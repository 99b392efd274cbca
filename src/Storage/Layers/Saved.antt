-- ===== src/Storage/Layers/Saved.antt =====
-- pkg/storage/local.go: what `saveLayer` leaves for a sound layer where no call fails.
use jitdi.Base.{
  ◌≡◌, ◌≢◌, ◌⊎◌, refl, sym, subst, ap, ◌∙◌, Bool, true, false, inl, inr, none, some, Option-cases,
  [], ◌∷◌, arith, Bytes, length, lookup, insert, ◌==◌,
}
use jitdi.Exec.{Result, ok, err, nothing}
use jitdi.Exec.Outcome.{bind_ok}
use jitdi.Disk.{Disk, touch, create_temp, rename, read}
use jitdi.Storage.Paths.{local_blob_path, IsHex}
use jitdi.Container.{Hash, Layer}
use jitdi.Storage.Layers.{
  hit_layer, hit_size, same_size, write_file_with_reader, rename_layer, store_layer, unless_hit,
  save_layer,
}

-- A layer that can be read, is not empty, and tells its digest and its size truly once it has been
-- read; a digest that it tells before is the same one.
pub record IsSound (sum_sha256 : Bytes → Bytes) (layer : Layer) : Type 0 where
  pub digest : Hash
  pub contents : Bytes
  pub read_digest : layer.digest true ≡ ok digest
  pub read_contents : layer.compressed ≡ ok contents
  pub read_size : layer.size true ≡ ok (length contents)
  pub not_empty : contents ≢ []
  pub early_digest : (h : Hash) → layer.digest false ≡ ok h → h ≡ digest
  pub hex : IsHex digest.hex
  pub summed : sum_sha256 contents ≡ digest.hex

same_hash : (r : Result Hash) (h k : Hash) → r ≡ ok h → r ≡ ok k → h ≡ k
same_hash r h k e e' = cc

-- The digest that a sound layer tells is its one.
pub sound_digest :
    (sum_sha256 : Bytes → Bytes) (layer : Layer) (sound : IsSound sum_sha256 layer) (h : Hash)
    → layer.digest true ≡ ok h
    → sound.digest ≡ h
sound_digest sum layer sound h e = same_hash (layer.digest true) sound.digest h sound.read_digest e

pub sound_digest-IsHex :
    (sum_sha256 : Bytes → Bytes) (layer : Layer)
    → IsSound sum_sha256 layer
    → (h : Hash) → layer.digest true ≡ ok h
    → IsHex h.hex
sound_digest-IsHex sum layer sound h e =
    subst (λ (h : Hash). IsHex h.hex) (sound_digest sum layer sound h e) sound.hex

-- The call returned no error, no fault is left, and the blob was there or has been put there.
pub record Saved (path contents : Bytes) (d : Disk) (r : Result (Unit {0}) × Disk) : Type 0 where
  pub returned : r.0 ≡ ok nothing
  pub calm : r.1.faults ≡ []
  pub outcome :
      ((s : Bytes) × (lookup path d.files ≡ some s) × (r.1.files ≡ d.files))
      ⊎ (r.1.files ≡ insert path contents d.files)

length-ne-zero : (s : Bytes) → s ≢ [] → (length s == 0) ≡ false
length-ne-zero [] h = absurd (h refl)
length-ne-zero (c ∷ s) h = ground arith

module _ (sum_sha256 : Bytes → Bytes) (cache : Bytes) (layer : Layer)
    (sound : IsSound sum_sha256 layer) where
  abbrev path : Bytes
  path = local_blob_path cache sound.digest.hex

  store_layer-Saved :
      (d : Disk) → d.faults ≡ [] → Saved path sound.contents d (store_layer layer cache d)
  unfolding store_layer touch create_temp write_file_with_reader rename rename_layer
  store_layer-Saved d h = record {
    returned = ground (
      arith,
      h,
      sound.read_digest,
      sound.read_contents,
      sound.read_size,
      length-ne-zero sound.contents sound.not_empty,
    );
    calm = ground (
      arith,
      h,
      sound.read_digest,
      sound.read_contents,
      sound.read_size,
      length-ne-zero sound.contents sound.not_empty,
    );
    outcome = inr ground (
      arith,
      h,
      sound.read_digest,
      sound.read_contents,
      sound.read_size,
      length-ne-zero sound.contents sound.not_empty,
    );
  }

  -- The answer of the test for a hit, with the disk behind it.
  record Asked (d : Disk) (hit : Bool) (d' : Disk) : Type 0 where
    pub calm : d'.faults ≡ []
    pub same : d'.files ≡ d.files
    pub there : hit ≡ true → (s : Bytes) × (lookup path d.files ≡ some s)

  hit_found :
      (d : Disk) (h : Hash) (s : Bytes)
      → d.faults ≡ []
      → lookup (local_blob_path cache h.hex) d.files ≡ some s
      → hit_layer layer cache (ok h) d
        ≡ (ok (same_size (length s) (layer.size false)), record d { faults = [] })
  unfolding hit_layer hit_size read
  hit_found d h s calm e = ground (arith, calm, e)

  hit_missing :
      (d : Disk) (h : Hash)
      → d.faults ≡ []
      → lookup (local_blob_path cache h.hex) d.files ≡ none
      → hit_layer layer cache (ok h) d ≡ (ok false, record d { faults = [] })
  unfolding hit_layer hit_size read
  hit_missing d h calm e = ground (arith, calm, e)

  hit_layer-Asked :
      (d : Disk)
      → d.faults ≡ []
      → (r : Result Hash) → ((h : Hash) → r ≡ ok h → h ≡ sound.digest)
      → (hit : Bool) × (d' : Disk) × (hit_layer layer cache r d ≡ (ok hit, d')) × Asked d hit d'
  hit_layer-Asked d calm (ok h) early =
      elim (Option-cases (lookup (local_blob_path cache h.hex) d.files)) [
        | inl e ↦ (
          false,
          record d { faults = [] },
          hit_missing d h calm e,
          record { calm = refl; same = refl; there = λ e. cc },
        )
        | inr (s, e) ↦ (
          same_size (length s) (layer.size false),
          record d { faults = [] },
          hit_found d h s calm e,
          record {
            calm = refl;
            same = refl;
            there = λ _. (
              s,
              ap (λ (h : Hash). lookup (local_blob_path cache h.hex) d.files) (sym (early h refl))
                  ∙ e,
            );
          },
        )
      ]
  hit_layer-Asked d calm (err e) early =
      (false, d, (unfold hit_layer in refl), record { calm = calm; same = refl; there = λ e. cc })

  unless_hit-Saved :
      (d d' : Disk) (hit : Bool)
      → Asked d hit d'
      → Saved path sound.contents d (unless_hit layer cache hit d')
  unfolding unless_hit
  unless_hit-Saved d d' true a =
      let (s, e) = a.there refl in
      record { returned = refl; calm = a.calm; outcome = inl (s, e, a.same) }
  unless_hit-Saved d d' false a =
      let saved = store_layer-Saved d' a.calm in
      record {
        returned = saved.returned;
        calm = saved.calm;
        outcome = elim saved.outcome [
          | inl (s, e, same) ↦ inl (s, ap (lookup path) (sym a.same) ∙ e, same ∙ a.same)
          | inr e ↦ inr (e ∙ ap (insert path sound.contents) a.same)
        ];
      }

  -- With no fault a sound layer is saved without an error.
  pub save_layer-Saved :
      (d : Disk) → d.faults ≡ [] → Saved path sound.contents d (save_layer layer cache d)
  unfolding save_layer
  save_layer-Saved d calm =
      let (hit, d', e, asked) = hit_layer-Asked d calm (layer.digest false) sound.early_digest in
      subst (Saved path sound.contents d)
        (sym (bind_ok (hit_layer layer cache (layer.digest false)) (unless_hit layer cache) e))
        (unless_hit-Saved d d' hit asked)
