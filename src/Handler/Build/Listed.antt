-- ===== src/Handler/Build/Listed.antt =====
-- pkg/handler/handler.go with pkg/builder/image_index.go: what the index lists that is made of new images.
use jitdi.Base.{
  ◌≡◌, refl, sym, ap, ◌∙◌, subst, true, Option, some, List, [], ◌∷◌, ◌++◌, append_assoc, append-nil,
  map, inl, inr,
}
use jitdi.Exec.{Result, ok, err}
use jitdi.Exec.Pure
use jitdi.Exec.Outcome.{IfOk, pure-IfOk}
use jitdi.Config.{Platform}
use jitdi.Container.{Hash, Image, Descriptor, Reference}
use jitdi.Pattern.Rule.{Action, get_mutates}
use jitdi.Builder.Index.{IndexOps, Index, append_image, new_image_index, clear_image}
use jitdi.Container.{ImageIndex}
use jitdi.Handler.Build.{World, Services, Cache, is_wanted}
use jitdi.Handler.Build.Platforms.{EditsManifests, wanted, platform_of}
use jitdi.Handler.Build.Complete.{IsSkipped, New, Makes, done, skip, make, pushed}

abbrev value : {A : Type 0} → A → Result A → A
value a (ok b) = b
value a (err e) = a

-- One more descriptor, of that digest and platform.
abbrev Appended : List Descriptor → Hash → Option Platform → Index → Type 0
Appended old hash platform index =
    (d : Descriptor) × (index.image_index.manifests ≡ ok (old ++ d ∷ []))
    × (d.digest ≡ hash)
    × (d.platform ≡ platform)

known-IfOk :
    {A B : Type 0} (P : B → Type 0) (r : Result A) (a : A) (f : A → Result B)
    → r ≡ ok a
    → IfOk P (f a)
    → IfOk P (Pure.◌>>=◌ r f)
known-IfOk P r a f e h = subst (λ r. IfOk P (Pure.◌>>=◌ r f)) (sym e) h

append_image-Appended :
    (ops : IndexOps) (edits : EditsManifests ops) (image : Image) (platform : Option Platform)
    (index : Index) (old : List Descriptor) (hash : Hash)
    → image.digest ≡ ok hash
    → index.image_index.manifests ≡ ok old
    → IfOk (Appended old hash platform) (append_image ops image platform index)
unfolding append_image
append_image-Appended ops edits image platform index old hash digest h =
    pure-IfOk (Appended old hash platform) _
      (λ media_type. known-IfOk (Appended old hash platform) image.digest hash _ digest (
        pure-IfOk (Appended old hash platform) _
          (λ size. (_, edits.1 index.image_index image _ old h, refl, refl)) image.size))
      image.manifest_media_type

module _ {R : Type 0} (services : Services R) (cache : Cache) (ref : Reference)
    (ps : Option (List Platform)) where
  -- The descriptors of the images, in their order.
  abbrev pub AreListed : List Descriptor → List (New services cache ref ps) → Type 0
  AreListed [] [] = Unit
  AreListed [] (n ∷ news) = ⊥
  AreListed (d ∷ ds) [] = ⊥
  AreListed (d ∷ ds) (n ∷ news) = (d.digest ≡ n.hash) × AreListed ds news

  -- The index lists the images behind what was there, for the platforms that are wanted.
  abbrev Lists :
      List Descriptor → List Descriptor → List (New services cache ref ps) → Index → Type 0
  Lists old ds news index =
      (listed : List Descriptor) × (index.image_index.manifests ≡ ok (old ++ listed))
      × (map platform_of listed ≡ wanted ps ds)
      × AreListed listed news

  wanted_skipped :
      (d : Descriptor) (ds : List Descriptor)
      → IsSkipped services cache ref ps d
      → wanted ps (d ∷ ds) ≡ wanted ps ds
  unfolding wanted
  wanted_skipped d ds (inl e) = rw e refl
  wanted_skipped d ds (inr (p, e, n)) = rw (e, n) refl

  wanted_made :
      (d : Descriptor) (ds : List Descriptor) (p : Platform)
      → d.platform ≡ some p
      → is_wanted ps p ≡ true
      → wanted ps (d ∷ ds) ≡ some p ∷ wanted ps ds
  unfolding wanted
  wanted_made d ds p e t = rw (e, t) refl

  Makes-Lists :
      (edits : EditsManifests services.index_ops) (ds : List Descriptor) (action : Action)
      (index : Index) (w w' : World R) (news : List (New services cache ref ps))
      (r : Action × Index) (old : List Descriptor)
      → index.image_index.manifests ≡ ok old
      → Makes services cache ref ps ds action index w news r w'
      → Lists old ds news r.1
  Makes-Lists edits ds action index w w' news r old h done =
      ([], h ∙ ap ok (sym (append-nil old)), (unfold wanted in refl), tt)
  Makes-Lists edits (d ∷ ds) action index w w' news r old h (skip s makes) =
      let (listed, m, platforms, digests) =
        Makes-Lists edits ds action index w w' news r old h makes in
      (listed, m, platforms ∙ sym (wanted_skipped d ds s), digests)
  Makes-Lists edits (d ∷ ds) action index w w' (n ∷ news) r old h (make m makes) =
      let (d', m', digest, platform) =
        subst (IfOk (Appended old m.hash (some m.platform))) m.appended (
          append_image-Appended services.index_ops edits m.new (some m.platform) index old m.hash
            m.read_hash h) in
      let (listed, m'', platforms, digests) =
        Makes-Lists edits ds (get_mutates action (some m.platform)).0 m.index'
          (record m.w1 { disk = (pushed services cache ref ps m.w1 m.new).1 }) w' news r
          (old ++ d' ∷ []) m' makes in
      (
        d' ∷ listed,
        m'' ∙ ap ok (append_assoc old (d' ∷ []) listed),
        ap (λ p. p ∷ map platform_of listed) platform
            ∙ ap (λ (rest : List (Option Platform)). some m.platform ∷ rest) platforms
            ∙ sym (wanted_made d ds m.platform m.of_platform m.wanted),
        (digest, digests),
      )

  -- What is listed of a base whose manifests were cleared first.
  pub Makes-cleared :
      (edits : EditsManifests services.index_ops) (base : ImageIndex) (ds : List Descriptor)
      (action : Action) (w w' : World R) (news : List (New services cache ref ps))
      (r : Action × Index)
      → base.manifests ≡ ok ds
      → Makes services cache ref ps ds action
          (clear_image services.index_ops (new_image_index base))
          w
          news
          r
          w'
      → (listed : List Descriptor) × (r.1.image_index.manifests ≡ ok listed)
        × (map platform_of listed ≡ wanted ps ds)
        × AreListed listed news
  unfolding clear_image new_image_index
  Makes-cleared edits base ds action w w' news r e makes =
      Makes-Lists edits ds action (clear_image services.index_ops (new_image_index base)) w w' news
        r [] (edits.0 base ds e) makes
