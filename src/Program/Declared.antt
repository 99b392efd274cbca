-- ===== src/Program/Declared.antt =====
-- cmd/jitdi/main.go: what the configuration files declare.
use jitdi.Base.{◌≡◌, ◌↔◌, refl, ap, ◌∙◌, List, [], ◌∷◌, ◌++◌, append-nil, Bytes}
use jitdi.Exec.{Result, ok, err}
use jitdi.Exec.Outcome.{IfOk, chain-IfOk, map-IfOk, known-IfOk}
use jitdi.Config.{Image, Registry}
use jitdi.Program.{
  Decoders, Loaded, load_document, load_documents, load_config, load_files, load_config_file,
}
use jitdi.Program.Document.{
  Declares, Added, load_document-IfOk, Declares-load_document, Added-iff, Added_both,
}

module _ (decoders : Decoders) where
  open decoders use {documents}

  -- Those of a file, in order.
  pub data FileDeclares : List (Result Bytes) → List Image → List Registry → Type 0 where
    at_end : FileDeclares [] [] []
    document :
        {raw : Bytes} {ds : List (Result Bytes)} {is js : List Image} {rs ts : List Registry}
        → Declares decoders raw is rs
        → FileDeclares ds js ts
        → FileDeclares (ok raw ∷ ds) (is ++ js) (rs ++ ts)

  -- Those of all files, in order.
  pub data PathsDeclare (open_file : Bytes → Result Bytes)
      : List Bytes → List Image → List Registry → Type 0 where
    no_more : PathsDeclare open_file [] [] []
    a_file :
        {p contents : Bytes} {paths : List Bytes} {is js : List Image} {rs ts : List Registry}
        → open_file p ≡ ok contents
        → FileDeclares (documents contents) is rs
        → PathsDeclare open_file paths js ts
        → PathsDeclare open_file (p ∷ paths) (is ++ js) (rs ++ ts)

  load_documents-IfOk :
      (ds : List (Result Bytes)) (l : Loaded)
      → IfOk (Added (FileDeclares ds) l) (load_documents decoders ds l)
  unfolding load_documents
  load_documents-IfOk [] l = ([], [], at_end, rw (append-nil l.0, append-nil l.1) refl)
  load_documents-IfOk (err e ∷ ds) l = tt
  load_documents-IfOk (ok raw ∷ ds) l =
      chain-IfOk (Added (Declares decoders raw) l) _ _
        (λ l' (is, rs, here, e).
          map-IfOk (Added (FileDeclares ds) l') _
            (λ m (js, ts, rest, f).
              (is ++ js, rs ++ ts, document here rest, f ∙ rw e (Added_both l is js rs ts)))
            (load_documents decoders ds l') (load_documents-IfOk ds l'))
        (load_document decoders raw l) (load_document-IfOk decoders raw l)

  FileDeclares-load_documents :
      (ds : List (Result Bytes)) (is : List Image) (rs : List Registry) (l : Loaded)
      → FileDeclares ds is rs
      → load_documents decoders ds l ≡ ok (l.0 ++ is, l.1 ++ rs)
  unfolding load_documents
  FileDeclares-load_documents [] _ _ l at_end = rw (append-nil l.0, append-nil l.1) refl
  FileDeclares-load_documents (err e ∷ ds) _ _ l declared = elim declared [ ]
  FileDeclares-load_documents (ok raw ∷ ds) _ _ l
        (document {is = is} {js = js} {rs = rs} {ts = ts} here rest) =
      rw
        (
          Declares-load_document decoders raw is rs l here,
          FileDeclares-load_documents ds js ts (l.0 ++ is, l.1 ++ rs) rest,
        )
        (ap ok (Added_both l is js rs ts))

  load_config_iff :
      (contents : Bytes) (is : List Image) (rs : List Registry)
      → (load_config decoders contents ≡ ok (is, rs)) ↔ FileDeclares (documents contents) is rs
  unfolding load_config
  load_config_iff contents =
      Added-iff (FileDeclares (documents contents))
        (load_documents decoders (documents contents) ([], []))
        (load_documents-IfOk (documents contents) ([], []))
        (λ is rs. FileDeclares-load_documents (documents contents) is rs ([], []))

  module _ (open_file : Bytes → Result Bytes) where
    load_files-IfOk :
        (paths : List Bytes) (l : Loaded)
        → IfOk (Added (PathsDeclare open_file paths) l) (load_files decoders open_file paths l)
    unfolding load_files
    load_files-IfOk [] l = ([], [], no_more, rw (append-nil l.0, append-nil l.1) refl)
    load_files-IfOk (p ∷ paths) l =
        chain-IfOk (λ c. open_file p ≡ ok c) _ _
          (λ c o.
            chain-IfOk (λ r. load_config decoders c ≡ ok r) _ _
              (λ r e.
                map-IfOk (Added (PathsDeclare open_file paths) (l.0 ++ r.0, l.1 ++ r.1)) _
                  (λ m (js, ts, rest, f). (
                    r.0 ++ js,
                    r.1 ++ ts,
                    a_file o ((load_config_iff c r.0 r.1).0 e) rest,
                    f ∙ Added_both l r.0 js r.1 ts,
                  ))
                  (load_files decoders open_file paths (l.0 ++ r.0, l.1 ++ r.1))
                  (load_files-IfOk paths (l.0 ++ r.0, l.1 ++ r.1)))
              (load_config decoders c) (known-IfOk (load_config decoders c)))
          (open_file p) (known-IfOk (open_file p))

    PathsDeclare-load_files :
        (paths : List Bytes) (is : List Image) (rs : List Registry) (l : Loaded)
        → PathsDeclare open_file paths is rs
        → load_files decoders open_file paths l ≡ ok (l.0 ++ is, l.1 ++ rs)
    unfolding load_files
    PathsDeclare-load_files [] _ _ l no_more = rw (append-nil l.0, append-nil l.1) refl
    PathsDeclare-load_files (p ∷ paths) _ _ l
          (a_file {contents = c} {is = is} {js = js} {rs = rs} {ts = ts} o here rest) =
        rw
          (
            o,
            (load_config_iff c is rs).1 here,
            PathsDeclare-load_files paths js ts (l.0 ++ is, l.1 ++ rs) rest,
          )
          (ap ok (Added_both l is js rs ts))

-- The configuration files load without an error, as some images and registries, exactly if every file
-- can be opened and every document of each is empty or declares an image or a registry in the expected
-- version, and these are the ones that the documents declare, in order.
pub load_config_file_iff :
    (decoders : Decoders) (open_file : Bytes → Result Bytes) (paths : List Bytes) (is : List Image)
    (rs : List Registry)
    → (load_config_file decoders open_file paths ≡ ok (is, rs))
      ↔ PathsDeclare decoders open_file paths is rs
unfolding load_config_file
load_config_file_iff decoders open_file paths =
    Added-iff (PathsDeclare decoders open_file paths) (load_files decoders open_file paths ([], []))
      (load_files-IfOk decoders open_file paths ([], []))
      (λ is rs. PathsDeclare-load_files decoders open_file paths is rs ([], []))
