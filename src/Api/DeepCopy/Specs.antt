-- ===== src/Api/DeepCopy/Specs.antt =====
-- pkg/apis/v1alpha1/zz_generated.deepcopy.go: the copies of the specifications.
use jitdi.Base.{refl, ◌∙◌}
use jitdi.Exec.{pure, ◌>>=◌}
use jitdi.Exec.Outcome.{bind_ok}
use jitdi.Api.Memory.{
  Library, base_auth_cell, authentication_cell, file_cell, ollama_cell, mutates_cell,
  platforms_cell,
}
use jitdi.Api.DeepCopy.{
  base_auth_into, file_into, ollama_into, copy_platforms, authentication_into, mutate_into,
  image_spec_into, registry_spec_into, copy_pointer, each_into,
}
use jitdi.Api.DeepCopy.Copies.{IsCopy, Plain, both}
use jitdi.Api.DeepCopy.Meaning.{
  Meaning, AuthenticationFor, MutateFor, ImageSpecFor, RegistrySpecFor,
}
use jitdi.Api.DeepCopy.Parts.{
  Pointed, Elements, plain-IsCopy, copy_pointer-IsCopy, each_into-IsCopy,
}

module _ (L : Library) (m : Meaning L) where
  base_auths :
      IsCopy L (Pointed L (Plain L) base_auth_cell) (copy_pointer base_auth_cell base_auth_into)
  base_auths =
      copy_pointer-IsCopy L (Plain L) base_auth_into
        (plain-IsCopy L base_auth_into (λ x. unfold base_auth_into in refl)) base_auth_cell

  authentication_into-IsCopy : IsCopy L (AuthenticationFor L m) authentication_into
  unfolding authentication_into
  authentication_into-IsCopy = record {
    is_local = λ P Q h h' a t k r. base_auths.is_local P Q h h' a.base_auth t.base_auth k r;
    copies = λ h a t r.
        let (b, h', e, ext, s) = base_auths.copies h a.base_auth t.base_auth r in
        (
          record a { base_auth = b },
          h',
          bind_ok (copy_pointer base_auth_cell base_auth_into a.base_auth)
              (λ b. pure (record a { base_auth = b })) e,
          ext,
          s,
        );
  }

  files : IsCopy L (Pointed L (Plain L) file_cell) (copy_pointer file_cell file_into)
  files =
      copy_pointer-IsCopy L (Plain L) file_into
        (plain-IsCopy L file_into (λ x. unfold file_into in refl)) file_cell

  ollamas : IsCopy L (Pointed L (Plain L) ollama_cell) (copy_pointer ollama_cell ollama_into)
  ollamas =
      copy_pointer-IsCopy L (Plain L) ollama_into
        (plain-IsCopy L ollama_into (λ x. unfold ollama_into in refl)) ollama_cell

  mutate_into-IsCopy : IsCopy L (MutateFor L m) mutate_into
  unfolding mutate_into
  mutate_into-IsCopy = record {
    is_local = λ P Q h h' a t k r. (
      files.is_local P Q h h' a.file t.file k r.0,
      ollamas.is_local P Q h h' a.ollama t.ollama k r.1,
    );
    copies = λ h a t r.
        let b =
          both L (Pointed L (Plain L) file_cell) (Pointed L (Plain L) ollama_cell)
            (copy_pointer file_cell file_into) (copy_pointer ollama_cell ollama_into) files ollamas
            h a.file t.file a.ollama t.ollama r.0 r.1 in
        (
          record a { file = b.first; ollama = b.second },
          b.last,
          bind_ok (copy_pointer file_cell file_into a.file)
                (λ file. copy_pointer ollama_cell ollama_into a.ollama >>= λ ollama.
                  pure (record a { file = file; ollama = ollama }))
                b.ran_first
              ∙ bind_ok (copy_pointer ollama_cell ollama_into a.ollama)
                  (λ ollama. pure (record a { file = b.first; ollama = ollama })) b.ran_second,
          b.extends,
          (b.stands_first, b.stands_second),
        );
  }

  mutates :
      IsCopy L
        (Pointed L (Elements L (MutateFor L m)) mutates_cell)
        (copy_pointer mutates_cell (each_into mutate_into))
  mutates =
      copy_pointer-IsCopy L (Elements L (MutateFor L m)) (each_into mutate_into)
        (each_into-IsCopy L (MutateFor L m) mutate_into mutate_into-IsCopy) mutates_cell

  platforms :
      IsCopy L (Pointed L (Plain L) platforms_cell) (copy_pointer platforms_cell copy_platforms)
  platforms =
      copy_pointer-IsCopy L (Plain L) copy_platforms
        (plain-IsCopy L copy_platforms (λ x. unfold copy_platforms in refl)) platforms_cell

  pub image_spec_into-IsCopy : IsCopy L (ImageSpecFor L m) image_spec_into
  unfolding image_spec_into
  image_spec_into-IsCopy = record {
    is_local = λ P Q h h' a t k r. (
      r.0,
      r.1,
      mutates.is_local P Q h h' a.mutates t.mutates k r.2,
      platforms.is_local P Q h h' a.platforms t.platforms k r.3,
    );
    copies = λ h a t r.
        let b =
          both L (Pointed L (Elements L (MutateFor L m)) mutates_cell)
            (Pointed L (Plain L) platforms_cell) (copy_pointer mutates_cell (each_into mutate_into))
            (copy_pointer platforms_cell copy_platforms) mutates platforms h a.mutates t.mutates
            a.platforms t.platforms r.2 r.3 in
        (
          record a { mutates = b.first; platforms = b.second },
          b.last,
          bind_ok (copy_pointer mutates_cell (each_into mutate_into) a.mutates)
                (λ mutates. copy_pointer platforms_cell copy_platforms a.platforms >>= λ platforms.
                  pure (record a { mutates = mutates; platforms = platforms }))
                b.ran_first
              ∙ bind_ok (copy_pointer platforms_cell copy_platforms a.platforms)
                  (λ platforms. pure (record a { mutates = b.first; platforms = platforms }))
                  b.ran_second,
          b.extends,
          (r.0, r.1, b.stands_first, b.stands_second),
        );
  }

  authentications :
      IsCopy L
        (Pointed L (AuthenticationFor L m) authentication_cell)
        (copy_pointer authentication_cell authentication_into)
  authentications =
      copy_pointer-IsCopy L (AuthenticationFor L m) authentication_into authentication_into-IsCopy
        authentication_cell

  pub registry_spec_into-IsCopy : IsCopy L (RegistrySpecFor L m) registry_spec_into
  unfolding registry_spec_into
  registry_spec_into-IsCopy = record {
    is_local = λ P Q h h' a t k r.
        (r.0, r.1, authentications.is_local P Q h h' a.authentication t.authentication k r.2);
    copies = λ h a t r.
        let (b, h', e, ext, s) = authentications.copies h a.authentication t.authentication r.2 in
        (
          record a { authentication = b },
          h',
          bind_ok (copy_pointer authentication_cell authentication_into a.authentication)
              (λ b. pure (record a { authentication = b })) e,
          ext,
          (r.0, r.1, s),
        );
  }
