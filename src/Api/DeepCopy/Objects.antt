-- ===== src/Api/DeepCopy/Objects.antt =====
-- pkg/apis/v1alpha1/zz_generated.deepcopy.go: the copies of images, registries and their lists.
use jitdi.Base.{refl, arith, ◌∙◌}
use jitdi.Exec.{pure, ◌>>=◌}
use jitdi.Exec.Outcome.{bind_ok}
use jitdi.Api.Memory.{Library, conditions_cell, images_cell, registries_cell}
use jitdi.Api.DeepCopy.{
  LibraryCopies, image_spec_into, registry_spec_into, condition_into, image_status_into,
  registry_status_into, image_into, registry_into, image_list_into, registry_list_into,
  copy_pointer, each_into,
}
use jitdi.Api.DeepCopy.Copies.{IsCopy, both, three}
use jitdi.Api.DeepCopy.Meaning.{
  Meaning, CopiesDeeply, ConditionFor, ConditionsFor, ImageStatusFor, RegistryStatusFor,
  ImageSpecFor, ImageFor, ImageListFor, RegistrySpecFor, RegistryFor, RegistryListFor,
}
use jitdi.Api.DeepCopy.Specs.{image_spec_into-IsCopy, registry_spec_into-IsCopy}
use jitdi.Api.DeepCopy.Parts.{Pointed, Elements, copy_pointer-IsCopy, each_into-IsCopy}

module _ (L : Library) (m : Meaning L) (copies : LibraryCopies L)
    (library : CopiesDeeply L m copies) where
  open copies use {copy_time, copy_object_meta, copy_list_meta}

  condition_into-IsCopy : IsCopy L (ConditionFor L m) (condition_into copies)
  unfolding condition_into
  condition_into-IsCopy = record {
    is_local = λ P Q h h' a t k r. r;
    copies = λ h a t r. (
      record a { last_transition_time = copy_time a.last_transition_time },
      h,
      refl,
      (omega arith, λ p l. refl),
      (r.0, r.1, library.time a.last_transition_time ∙ r.2, r.3, r.4),
    );
  }

  conditions :
      IsCopy L
        (ConditionsFor L m)
        (copy_pointer conditions_cell (each_into (condition_into copies)))
  conditions =
      copy_pointer-IsCopy L (Elements L (ConditionFor L m)) (each_into (condition_into copies))
        (each_into-IsCopy L (ConditionFor L m) (condition_into copies) condition_into-IsCopy)
        conditions_cell

  image_status_into-IsCopy : IsCopy L (ImageStatusFor L m) (image_status_into copies)
  unfolding image_status_into
  image_status_into-IsCopy = record {
    is_local = λ P Q h h' a t k r. conditions.is_local P Q h h' a.conditions t.conditions k r;
    copies = λ h a t r.
        let (b, h', e, ext, s) = conditions.copies h a.conditions t.conditions r in
        (
          record a { conditions = b },
          h',
          bind_ok (copy_pointer conditions_cell (each_into (condition_into copies)) a.conditions)
              (λ b. pure (record a { conditions = b })) e,
          ext,
          s,
        );
  }

  image_into-IsCopy : IsCopy L (ImageFor L m) (image_into copies)
  unfolding image_into
  image_into-IsCopy = record {
    is_local = λ P Q h h' a t k r. (
      r.0,
      library.object_meta.is_local P Q h h' a.object_meta t.object_meta k r.1,
      (image_spec_into-IsCopy L m).is_local P Q h h' a.spec t.spec k r.2,
      image_status_into-IsCopy.is_local P Q h h' a.status t.status k r.3,
    );
    copies = λ h a t r.
        let b =
          three L m.object_meta (ImageSpecFor L m) (ImageStatusFor L m) copy_object_meta
            image_spec_into (image_status_into copies) library.object_meta
            (image_spec_into-IsCopy L m) image_status_into-IsCopy h a.object_meta t.object_meta
            a.spec t.spec a.status t.status r.1 r.2 r.3 in
        (
          record a { object_meta = b.first; spec = b.second; status = b.third },
          b.last,
          bind_ok (copy_object_meta a.object_meta)
                (λ object_meta. image_spec_into a.spec >>= λ spec.
                  image_status_into copies a.status >>= λ status.
                  pure (record a { object_meta = object_meta; spec = spec; status = status }))
                b.ran_first
              ∙ bind_ok (image_spec_into a.spec)
                  (λ spec. image_status_into copies a.status >>= λ status.
                    pure (record a { object_meta = b.first; spec = spec; status = status }))
                  b.ran_second
              ∙ bind_ok (image_status_into copies a.status)
                  (λ status.
                    pure (record a { object_meta = b.first; spec = b.second; status = status }))
                  b.ran_third,
          b.extends,
          (r.0, b.stands_first, b.stands_second, b.stands_third),
        );
  }

  images :
      IsCopy L
        (Pointed L (Elements L (ImageFor L m)) images_cell)
        (copy_pointer images_cell (each_into (image_into copies)))
  images =
      copy_pointer-IsCopy L (Elements L (ImageFor L m)) (each_into (image_into copies))
        (each_into-IsCopy L (ImageFor L m) (image_into copies) image_into-IsCopy) images_cell

  pub image_list_into-IsCopy : IsCopy L (ImageListFor L m) (image_list_into copies)
  unfolding image_list_into
  image_list_into-IsCopy = record {
    is_local = λ P Q h h' a t k r. (
      r.0,
      library.list_meta.is_local P Q h h' a.list_meta t.list_meta k r.1,
      images.is_local P Q h h' a.items t.items k r.2,
    );
    copies = λ h a t r.
        let b =
          both L m.list_meta (Pointed L (Elements L (ImageFor L m)) images_cell) copy_list_meta
            (copy_pointer images_cell (each_into (image_into copies))) library.list_meta images h
            a.list_meta t.list_meta a.items t.items r.1 r.2 in
        (
          record a { list_meta = b.first; items = b.second },
          b.last,
          bind_ok (copy_list_meta a.list_meta)
                (λ list_meta.
                  copy_pointer images_cell (each_into (image_into copies)) a.items >>= λ items.
                  pure (record a { list_meta = list_meta; items = items }))
                b.ran_first
              ∙ bind_ok (copy_pointer images_cell (each_into (image_into copies)) a.items)
                  (λ items. pure (record a { list_meta = b.first; items = items })) b.ran_second,
          b.extends,
          (r.0, b.stands_first, b.stands_second),
        );
  }

  registry_status_into-IsCopy : IsCopy L (RegistryStatusFor L m) (registry_status_into copies)
  unfolding registry_status_into
  registry_status_into-IsCopy = record {
    is_local = λ P Q h h' a t k r. conditions.is_local P Q h h' a.conditions t.conditions k r;
    copies = λ h a t r.
        let (b, h', e, ext, s) = conditions.copies h a.conditions t.conditions r in
        (
          record a { conditions = b },
          h',
          bind_ok (copy_pointer conditions_cell (each_into (condition_into copies)) a.conditions)
              (λ b. pure (record a { conditions = b })) e,
          ext,
          s,
        );
  }

  registry_into-IsCopy : IsCopy L (RegistryFor L m) (registry_into copies)
  unfolding registry_into
  registry_into-IsCopy = record {
    is_local = λ P Q h h' a t k r. (
      r.0,
      library.object_meta.is_local P Q h h' a.object_meta t.object_meta k r.1,
      (registry_spec_into-IsCopy L m).is_local P Q h h' a.spec t.spec k r.2,
      registry_status_into-IsCopy.is_local P Q h h' a.status t.status k r.3,
    );
    copies = λ h a t r.
        let b =
          three L m.object_meta (RegistrySpecFor L m) (RegistryStatusFor L m) copy_object_meta
            registry_spec_into (registry_status_into copies) library.object_meta
            (registry_spec_into-IsCopy L m) registry_status_into-IsCopy h a.object_meta
            t.object_meta a.spec t.spec a.status t.status r.1 r.2 r.3 in
        (
          record a { object_meta = b.first; spec = b.second; status = b.third },
          b.last,
          bind_ok (copy_object_meta a.object_meta)
                (λ object_meta. registry_spec_into a.spec >>= λ spec.
                  registry_status_into copies a.status >>= λ status.
                  pure (record a { object_meta = object_meta; spec = spec; status = status }))
                b.ran_first
              ∙ bind_ok (registry_spec_into a.spec)
                  (λ spec. registry_status_into copies a.status >>= λ status.
                    pure (record a { object_meta = b.first; spec = spec; status = status }))
                  b.ran_second
              ∙ bind_ok (registry_status_into copies a.status)
                  (λ status.
                    pure (record a { object_meta = b.first; spec = b.second; status = status }))
                  b.ran_third,
          b.extends,
          (r.0, b.stands_first, b.stands_second, b.stands_third),
        );
  }

  registries :
      IsCopy L
        (Pointed L (Elements L (RegistryFor L m)) registries_cell)
        (copy_pointer registries_cell (each_into (registry_into copies)))
  registries =
      copy_pointer-IsCopy L (Elements L (RegistryFor L m)) (each_into (registry_into copies))
        (each_into-IsCopy L (RegistryFor L m) (registry_into copies) registry_into-IsCopy)
        registries_cell

  pub registry_list_into-IsCopy : IsCopy L (RegistryListFor L m) (registry_list_into copies)
  unfolding registry_list_into
  registry_list_into-IsCopy = record {
    is_local = λ P Q h h' a t k r. (
      r.0,
      library.list_meta.is_local P Q h h' a.list_meta t.list_meta k r.1,
      registries.is_local P Q h h' a.items t.items k r.2,
    );
    copies = λ h a t r.
        let b =
          both L m.list_meta (Pointed L (Elements L (RegistryFor L m)) registries_cell)
            copy_list_meta (copy_pointer registries_cell (each_into (registry_into copies)))
            library.list_meta registries h a.list_meta t.list_meta a.items t.items r.1 r.2 in
        (
          record a { list_meta = b.first; items = b.second },
          b.last,
          bind_ok (copy_list_meta a.list_meta)
                (λ list_meta.
                  copy_pointer registries_cell (each_into (registry_into copies)) a.items
                  >>= λ items. pure (record a { list_meta = list_meta; items = items }))
                b.ran_first
              ∙ bind_ok (copy_pointer registries_cell (each_into (registry_into copies)) a.items)
                  (λ items. pure (record a { list_meta = b.first; items = items })) b.ran_second,
          b.extends,
          (r.0, b.stands_first, b.stands_second),
        );
  }
