-- ===== src/Handler/Build/Indexed.antt =====
-- pkg/handler/handler.go: the build of a whole index into the cache directory, where no call fails.
use jitdi.Base.{
  ◌≡◌, refl, ap, ◌∙◌, true, Option, some, All, List, [], ◌∷◌, Bytes, lookup, bytes_eq, false,
}
use jitdi.Exec.{Result, ok, nothing}
use jitdi.Config.{Platform}
use jitdi.Container.{ImageIndex, Descriptor, Described, Reference}
use jitdi.Disk.{Disk}
use jitdi.Pattern.Rule.{Action, get_platforms}
use jitdi.Storage.Paths.{IsHex, local_manifest_path}
use jitdi.Storage.Layers.{has_tag}
use jitdi.Storage.Pusher.{local_push_image_index, new_local_pusher}
use jitdi.Storage.Pusher.Steps.{Grows}
use jitdi.Storage.Pusher.Frame.{local_push_image_index_elsewhere}
use jitdi.Storage.Pusher.Indexed.{Grows-HasImage, local_push_image_index-Went}
use jitdi.Builder.Index.{Index, clear_image, new_image_index}
use jitdi.Handler.Build.{
  World, Services, Cache, local_pusher, on_disk, build_manifests, build_index,
}
use jitdi.Handler.Build.Complete.{IsGood, New, Makes, IsThere, build_manifests-Leaves, local}

module _ {R : Type 0} (services : Services R) (cache : Cache) (ref : Reference)
    (ps : Option (List Platform)) where
  open services use {sum_sha256, index_ops}

  -- From the index of a base image to the new index, its manifest and the state before it is pushed.
  pub record IndexMade (desc : Described) (action : Action) (w : World R)
      (news : List (New services cache ref ps)) (manifest : Bytes) (w' : World R) : Type 0 where
    pub base : ImageIndex
    pub manifests : List Descriptor
    pub result : Action × Index
    pub base_of : desc.image_index ≡ ok base
    pub manifests_of : base.manifests ≡ ok manifests
    pub makes :
        (Makes services cache ref ps) manifests action
          (clear_image index_ops (new_image_index base))
          w
          news
          result
          w'
    pub manifest_of : result.1.image_index.raw_manifest ≡ ok manifest
    pub hex : IsHex (sum_sha256 manifest)

  abbrev index_pushed : World R → Index → Result (Unit {0}) × Disk
  index_pushed w index =
      local_push_image_index sum_sha256 cache.blob_path cache.manifest_path ref index.image_index
        w.disk

  push_index :
      (index : Index) (w : World R)
      → (local services cache ref ps).push_image_index ref index.image_index w
        ≡ ((index_pushed w index).0, record w { disk = (index_pushed w index).1 })
  unfolding local_pusher on_disk new_local_pusher
  push_index index w = refl

  build_index_steps :
      (desc : Described) (action : Action) (w w' : World R) (base : ImageIndex)
      (manifests : List Descriptor) (r : Action × Index)
      → get_platforms action ≡ ps
      → desc.image_index ≡ ok base
      → base.manifests ≡ ok manifests
      → build_manifests services cache
          (local services cache ref ps)
          ref
          ps
          manifests
          action
          (clear_image index_ops (new_image_index base))
          w
        ≡ (ok r, w')
      → build_index services cache (local services cache ref ps) ref desc action w
        ≡ (local services cache ref ps).push_image_index ref r.1.image_index w'
  unfolding build_index
  build_index_steps desc action w w' base manifests r p e e' built = simp (e, e', p, built) refl

  -- What the build of an index leaves.
  pub record IsIndexBuilt (news : List (New services cache ref ps)) (manifest : Bytes)
      (w' : World R) (result : Result (Unit {0}) × World R) : Type 0 where
    pub end : Disk
    pub returned : result ≡ (ok nothing, record w' { disk = end })
    pub good : (IsGood services cache ref ps) (record w' { disk = end })
    pub tagged :
        lookup (local_manifest_path cache.manifest_path ref.repository ref.identifier) end.files
        ≡ some manifest
    pub elsewhere :
        (name tag : Bytes)
        → bytes_eq
            (local_manifest_path cache.manifest_path ref.repository ref.identifier)
            (local_manifest_path cache.manifest_path name tag)
          ≡ false
        → lookup (local_manifest_path cache.manifest_path name tag) end.files
          ≡ lookup (local_manifest_path cache.manifest_path name tag) w'.disk.files
    pub there : All ((IsThere services cache ref ps) (record w' { disk = end })) news

  Grows-IsThere :
      (w w' : World R) (news : List (New services cache ref ps))
      → (IsGood services cache ref ps) w'
      → Grows w.disk.files w'.disk.files
      → All ((IsThere services cache ref ps) w) news
      → All ((IsThere services cache ref ps) w') news
  Grows-IsThere w w' [] g grows there = tt
  Grows-IsThere w w' (n ∷ news) g grows (t, there) = (
    Grows-HasImage sum_sha256 cache.blob_path cache.manifest_path n.image n.sound w.disk.files
        w'.disk.files n.hex g.addressed grows t,
    Grows-IsThere w w' news g grows there,
  )

  pub build_index-IsIndexBuilt :
      (desc : Described) (action : Action) (w w' : World R)
      (news : List (New services cache ref ps)) (manifest : Bytes)
      → get_platforms action ≡ ps
      → has_tag ref.repository ref.identifier ≡ true
      → (IsGood services cache ref ps) w
      → IndexMade desc action w news manifest w'
      → IsIndexBuilt news manifest w'
          (build_index services cache (local services cache ref ps) ref desc action w)
  build_index-IsIndexBuilt desc action w w' news manifest p t g made =
      let leaves =
        (build_manifests-Leaves services cache ref ps) made.manifests action
          (clear_image index_ops (new_image_index made.base)) w w' news made.result g made.makes in
      let (went, addressed, found) =
        local_push_image_index-Went sum_sha256 cache.blob_path cache.manifest_path
          made.result.1.image_index manifest ref w'.disk made.manifest_of t leaves.good.calm
          made.hex leaves.good.addressed in
      let end : Disk = (index_pushed w' made.result.1).1 in
      let good : (IsGood services cache ref ps) (record w' { disk = end }) = record {
        calm = went.calm;
        addressed = addressed;
      } in
      record {
        end = end;
        returned =
            build_index_steps desc action w w' made.base made.manifests made.result p made.base_of
              made.manifests_of leaves.returned
            ∙ push_index made.result.1 w'
            ∙ ap (λ r. (r, record w' { disk = end })) went.returned;
        good = good;
        tagged = found;
        elsewhere = λ name tag apart.
            local_push_image_index_elsewhere sum_sha256 cache.blob_path cache.manifest_path name tag
              ref made.result.1.image_index manifest w'.disk made.manifest_of made.hex apart;
        there = Grows-IsThere w' (record w' { disk = end }) news good went.grows leaves.there;
      }
