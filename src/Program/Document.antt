-- ===== src/Program/Document.antt =====
-- cmd/jitdi/main.go: what one document of a configuration file declares.
use jitdi.Base.{
  ◌≡◌, ◌≢◌, ◌↔◌, refl, sym, subst, ◌∙◌, true, false, List, [], ◌∷◌, ◌++◌, append-nil, append_assoc,
  Bytes, bytes_eq, bytes_eq_iff, is_empty, Bool-cases, inl, inr,
}
use jitdi.Exec.{Result, ok}
use jitdi.Exec.Outcome.{IfOk, chain-IfOk, known-IfOk}
use jitdi.Config.{Image, Registry}
use jitdi.Program.{
  TypeMeta, Decoders, Loaded, group_version, image_kind, registry_kind, load_document, load_checked,
  load_kind,
}

-- One reads these besides.
abbrev pub Added : (List Image → List Registry → Type 0) → Loaded → Loaded → Type 0
Added R l l' = (is : List Image) × (rs : List Registry) × R is rs × (l' ≡ (l.0 ++ is, l.1 ++ rs))

-- What is read from nothing on.
pub Added-iff :
    (R : List Image → List Registry → Type 0) (r : Result Loaded)
    → IfOk (Added R ([], [])) r
    → ((is : List Image) (rs : List Registry) → R is rs → r ≡ ok (is, rs))
    → (is : List Image) (rs : List Registry) → (r ≡ ok (is, rs)) ↔ R is rs
Added-iff R r sound complete is rs = (
  λ e.
      let (js, ts, found, f) = subst (IfOk (Added R ([], []))) e sound in
      subst (λ (l : Loaded). R l.0 l.1) (sym f) found,
  complete is rs,
)

-- Read one after the other.
pub Added_both :
    (l : Loaded) (is js : List Image) (rs ts : List Registry)
    → ◌≡◌ {A = Loaded} ((l.0 ++ is) ++ js, (l.1 ++ rs) ++ ts) (l.0 ++ (is ++ js), l.1 ++ (rs ++ ts))
Added_both l is js rs ts = rw (append_assoc l.0 is js, append_assoc l.1 rs ts) refl

is_empty-false : (s : Bytes) → s ≢ [] → is_empty s ≡ false
is_empty-false [] n = absurd (n refl)
is_empty-false (c ∷ s) n = refl

module _ (decoders : Decoders) where
  open decoders use {documents, type_meta, image, registry}

  -- The images and the registries that a document declares.
  pub data Declares (raw : Bytes) : List Image → List Registry → Type 0 where
    nothing_there : raw ≡ [] → Declares raw [] []
    an_image :
        (img : Image)
        → raw ≢ []
        → type_meta raw ≡ ok (record { api_version = group_version; kind = image_kind })
        → image raw ≡ ok img
        → Declares raw (img ∷ []) []
    a_registry :
        (r : Registry)
        → raw ≢ []
        → type_meta raw ≡ ok (record { api_version = group_version; kind = registry_kind })
        → registry raw ≡ ok r
        → Declares raw [] (r ∷ [])

  known_kind :
      (raw : Bytes) (meta : TypeMeta) (kind : Bytes)
      → type_meta raw ≡ ok meta
      → bytes_eq meta.api_version group_version ≡ true
      → bytes_eq meta.kind kind ≡ true
      → type_meta raw ≡ ok (record { api_version = group_version; kind = kind })
  known_kind raw meta kind e v k =
      e
      ∙ rw ((bytes_eq_iff meta.api_version group_version).0 v, (bytes_eq_iff meta.kind kind).0 k)
          refl

  load_kind-IfOk :
      (raw : Bytes) (meta : TypeMeta) (l : Loaded)
      → raw ≢ []
      → type_meta raw ≡ ok meta
      → bytes_eq meta.api_version group_version ≡ true
      → IfOk (Added (Declares raw) l) (load_kind decoders raw meta.kind l)
  unfolding load_kind
  load_kind-IfOk raw meta l n e v = elim (Bool-cases (bytes_eq meta.kind image_kind)) [
    | inl k ↦ rw k (
        chain-IfOk (λ img. image raw ≡ ok img) _ _
          (λ img f. (
            img ∷ [],
            [],
            an_image img n (known_kind raw meta image_kind e v k) f,
            rw (append-nil l.1) refl,
          ))
          (image raw) (known-IfOk (image raw)))
    | inr k ↦ rw k (elim (Bool-cases (bytes_eq meta.kind registry_kind)) [
      | inl k' ↦ rw k' (
          chain-IfOk (λ r. registry raw ≡ ok r) _ _
            (λ r f. (
              [],
              r ∷ [],
              a_registry r n (known_kind raw meta registry_kind e v k') f,
              rw (append-nil l.0) refl,
            ))
            (registry raw) (known-IfOk (registry raw)))
      | inr k' ↦ rw k' tt
    ])
  ]

  load_checked-IfOk :
      (raw : Bytes) (meta : TypeMeta) (l : Loaded)
      → raw ≢ []
      → type_meta raw ≡ ok meta
      → IfOk (Added (Declares raw) l) (load_checked decoders raw meta l)
  unfolding load_checked
  load_checked-IfOk raw meta l n e = elim (Bool-cases (bytes_eq meta.api_version group_version)) [
    | inl v ↦ rw v (load_kind-IfOk raw meta l n e v)
    | inr v ↦ rw v tt
  ]

  pub load_document-IfOk :
      (raw : Bytes) (l : Loaded) → IfOk (Added (Declares raw) l) (load_document decoders raw l)
  unfolding load_document
  load_document-IfOk [] l = ([], [], nothing_there refl, rw (append-nil l.0, append-nil l.1) refl)
  load_document-IfOk (c ∷ raw) l =
      chain-IfOk (λ m. type_meta (c ∷ raw) ≡ ok m) _ _
        (λ meta e. load_checked-IfOk (c ∷ raw) meta l (λ e. cc) e) (type_meta (c ∷ raw))
        (known-IfOk (type_meta (c ∷ raw)))

  pub Declares-load_document :
      (raw : Bytes) (is : List Image) (rs : List Registry) (l : Loaded)
      → Declares raw is rs
      → load_document decoders raw l ≡ ok (l.0 ++ is, l.1 ++ rs)
  unfolding load_document load_checked load_kind
  Declares-load_document raw _ _ l (nothing_there e) = rw (e, append-nil l.0, append-nil l.1) refl
  Declares-load_document raw _ _ l (an_image img n e f) =
      rw (is_empty-false raw n, e, f, append-nil l.1) refl
  Declares-load_document raw _ _ l (a_registry r n e f) =
      rw (is_empty-false raw n, e, f, append-nil l.0) refl
