-- ===== src/Handler/Build/Complete.antt =====
-- pkg/handler/handler.go: the build of an index into the cache directory, where no call fails.
use jitdi.Base.{
  ◌≡◌, ◌⊎◌, inl, inr, refl, ap, ◌∙◌, true, false, Option, none, some, All, List, [], ◌∷◌,
}
use jitdi.Exec.{Result, ok, nothing}
use jitdi.Exec.Outcome.{bind_ok}
use jitdi.Config.{Platform}
use jitdi.Container.{Hash, Image, Descriptor, Reference, context}
use jitdi.Disk.{Disk}
use jitdi.Pattern.Rule.{Action, get_mutates}
use jitdi.Storage.Paths.{IsHex}
use jitdi.Storage.Layers.Addressed.{IsAddressed}
use jitdi.Storage.Pusher.{Pusher, local_push_image_with_index, new_local_pusher}
use jitdi.Storage.Pusher.Steps.{Grows}
use jitdi.Storage.Pusher.Complete.{IsSoundImage}
use jitdi.Storage.Pusher.Indexed.{HasImage, Grows-HasImage, local_push_image_with_index-HasImage}
use jitdi.Builder.Index.{Index, append_image}
use jitdi.Handler.Mutates.{mutate_image}
use jitdi.Handler.Build.{
  World, Services, Cache, local_pusher, on_disk, is_wanted, build_platform, build_manifests,
}

module _ {R : Type 0} (services : Services R) (cache : Cache) (ref : Reference)
    (ps : Option (List Platform)) where
  open services use {sum_sha256, layer_ops, sources, index_ops}

  -- Where no fault is left and the blobs have the contents that their paths name.
  pub record IsGood (w : World R) : Type 0 where
    pub calm : w.disk.faults ≡ []
    pub addressed : IsAddressed sum_sha256 cache.blob_path w.disk.files

  abbrev pub pushed : World R → Image → Result (Unit {0}) × Disk
  pushed w new =
      local_push_image_with_index sum_sha256 cache.blob_path cache.manifest_path (context ref) new
        w.disk

  -- The image of one platform, as the index has it and the mutations leave it, with a digest that is the
  -- sum of its manifest, on a disk that they leave good, and the index with it.
  pub record PlatformMade (d : Descriptor) (action : Action) (index : Index) (w : World R)
      : Type 0 where
    pub platform : Platform
    pub image : Image
    pub new : Image
    pub sound : IsSoundImage sum_sha256 new
    pub w1 : World R
    pub index' : Index
    pub of_platform : d.platform ≡ some platform
    pub wanted : is_wanted ps platform ≡ true
    pub got : index.image_index.image d.digest ≡ ok image
    pub mutated :
        mutate_image layer_ops sources image
          (get_mutates action (some platform)).1
          cache.link_path
          w
        ≡ (ok new, w1)
    pub good : IsGood w1
    pub grows : Grows w.disk.files w1.disk.files
    pub hex : IsHex (sum_sha256 sound.manifest)
    pub hash : Hash
    pub read_hash : new.digest ≡ ok hash
    pub hashed : sum_sha256 sound.manifest ≡ hash.hex
    pub appended : append_image index_ops new (some platform) index ≡ ok index'

  -- A descriptor without a platform, or with one that is not asked for.
  abbrev pub IsSkipped : Descriptor → Type 0
  IsSkipped d =
      (d.platform ≡ none) ⊎ ((p : Platform) × (d.platform ≡ some p) × (is_wanted ps p ≡ false))

  pub record New : Type 0 where
    pub image : Image
    pub sound : IsSoundImage sum_sha256 image
    pub hex : IsHex (sum_sha256 sound.manifest)
    pub hash : Hash
    pub hashed : sum_sha256 sound.manifest ≡ hash.hex

  -- The new images that are made for the descriptors in turn, and what is there in the end.
  pub data Makes
      : List Descriptor
        → Action
        → Index
        → World R
        → List New
        → Action × Index
        → World R
        → Type 0 where
    done :
        {action : Action} {index : Index} {w : World R}
        → Makes [] action index w [] (action, index) w
    skip :
        {d : Descriptor} {ds : List Descriptor} {action : Action} {index : Index} {w w' : World R}
        {news : List New} {r : Action × Index}
        → IsSkipped d
        → Makes ds action index w news r w'
        → Makes (d ∷ ds) action index w news r w'
    make :
        {d : Descriptor} {ds : List Descriptor} {action : Action} {index : Index} {w w' : World R}
        {news : List New} {r : Action × Index}
        → (m : PlatformMade d action index w)
        → Makes ds
            (get_mutates action (some m.platform)).0
            m.index'
            (record m.w1 { disk = (pushed m.w1 m.new).1 })
            news
            r
            w'
        → Makes
            (d ∷ ds)
            action
            index
            w
            (record {
              image = m.new;
              sound = m.sound;
              hex = m.hex;
              hash = m.hash;
              hashed = m.hashed;
            }
              ∷ news)
            r
            w'

  abbrev pub local : Pusher (World R)
  local = local_pusher sum_sha256 cache

  push_platform :
      (new : Image) (w : World R)
      → (pushed w new).0 ≡ ok nothing
      → local.push_image_with_index (context ref) new w
        ≡ (ok nothing, record w { disk = (pushed w new).1 })
  unfolding local_pusher on_disk new_local_pusher
  push_platform new w e = ap (λ r. (r, record w { disk = (pushed w new).1 })) e

  build_platform_made :
      (d : Descriptor) (action : Action) (index : Index) (w : World R)
      (m : PlatformMade d action index w)
      → (pushed m.w1 m.new).0 ≡ ok nothing
      → build_platform services cache local ref d m.platform action index w ≡ (
        ok ((get_mutates action (some m.platform)).0, m.index'),
        record m.w1 { disk = (pushed m.w1 m.new).1 },
      )
  unfolding build_platform
  build_platform_made d action index w m e =
      simp (m.got, m.mutated, push_platform m.new m.w1 e, m.appended) refl

  skipped :
      (d : Descriptor) (ds : List Descriptor) (action : Action) (index : Index) (w : World R)
      → IsSkipped d
      → build_manifests services cache local ref ps (d ∷ ds) action index w
        ≡ build_manifests services cache local ref ps ds action index w
  unfolding build_manifests
  skipped d ds action index w (inl e) = rw e refl
  skipped d ds action index w (inr (p, e, n)) = rw e (rw n refl)

  made :
      (d : Descriptor) (ds : List Descriptor) (action : Action) (index : Index) (w : World R)
      (m : PlatformMade d action index w)
      → (pushed m.w1 m.new).0 ≡ ok nothing
      → build_manifests services cache local ref ps (d ∷ ds) action index w
        ≡ build_manifests services cache local ref ps ds
            (get_mutates action (some m.platform)).0
            m.index'
            (record m.w1 { disk = (pushed m.w1 m.new).1 })
  unfolding build_manifests
  made d ds action index w m e = rw m.of_platform (
      rw m.wanted (
        bind_ok (build_platform services cache local ref d m.platform action index) _
          (build_platform_made d action index w m e)))

  -- All blobs and the manifest of a new image are there.
  abbrev pub IsThere : World R → New → Type 0
  IsThere w n = HasImage sum_sha256 cache.blob_path cache.manifest_path n.image n.sound w.disk.files

  -- What the loop leaves: it returned `r`, the disk is good, no file has gone, and the new images are
  -- there.
  pub record Leaves (w : World R) (news : List New) (r : Action × Index) (w' : World R)
      (result : Result (Action × Index) × World R) : Type 0 where
    pub returned : result ≡ (ok r, w')
    pub good : IsGood w'
    pub grows : Grows w.disk.files w'.disk.files
    pub there : All (IsThere w') news

  pub build_manifests-Leaves :
      (ds : List Descriptor) (action : Action) (index : Index) (w w' : World R) (news : List New)
      (r : Action × Index)
      → IsGood w
      → Makes ds action index w news r w'
      → Leaves w news r w' (build_manifests services cache local ref ps ds action index w)
  build_manifests-Leaves ds action index w w' news r g done = record {
    returned = unfold build_manifests in refl;
    good = g;
    grows = λ p s e. (s, e);
    there = tt;
  }
  build_manifests-Leaves (d ∷ ds) action index w w' news r g (skip s makes) =
      let rest = build_manifests-Leaves ds action index w w' news r g makes in
      record {
        returned = skipped d ds action index w s ∙ rest.returned;
        good = rest.good;
        grows = rest.grows;
        there = rest.there;
      }
  build_manifests-Leaves (d ∷ ds) action index w w' (new ∷ news) r g (make m makes) =
      let (went, has) =
        local_push_image_with_index-HasImage sum_sha256 cache.blob_path cache.manifest_path m.new
          m.sound (context ref) m.w1.disk m.good.calm m.hex m.good.addressed in
      let w2 : World R = record m.w1 { disk = (pushed m.w1 m.new).1 } in
      let g2 : IsGood w2 = record { calm = went.calm; addressed = has.contents.addressed } in
      let rest =
        build_manifests-Leaves ds (get_mutates action (some m.platform)).0 m.index' w2 w' news r g2
          makes in
      record {
        returned = made d ds action index w m went.returned ∙ rest.returned;
        good = rest.good;
        grows = λ p s e.
            let (s1, e1) = m.grows p s e in let (s2, e2) = went.grows p s1 e1 in rest.grows p s2 e2;
        there = (
          Grows-HasImage sum_sha256 cache.blob_path cache.manifest_path m.new m.sound w2.disk.files
              w'.disk.files m.hex rest.good.addressed rest.grows has,
          rest.there,
        );
      }
