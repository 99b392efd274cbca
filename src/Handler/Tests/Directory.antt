-- ===== src/Handler/Tests/Directory.antt =====
-- pkg/handler: a run of a mutation that puts a directory into an image.
use jitdi.Base.{
  ◌≡◌, refl, false, none, List, [], ◌∷◌, ◌++◌, map, codes, All, Among, one_letter-IsPlainName,
  arith,
}
use jitdi.Exec.{ok, err, fault, not_exist, nothing}
use jitdi.Config.{File}
use jitdi.Container.{Layer}
use jitdi.Container
use jitdi.Builder.Tar
use jitdi.Builder.Tar.Complete.{Opens, IsGood}
use jitdi.Builder.Files.{Host, Web, file, dir, Entries, end, entry}
use jitdi.Builder.Files.Walk.{AreReadable, tree}
use jitdi.Handler.Mutates.{Sources, sum_file_info, mutate_image_with_file}
use jitdi.Handler.Mutates.Laws.{layer_of}
use jitdi.Handler.Mutates.Directory.{local_sources, mutate_image_with_file-AreReadable}
use jitdi.Handler.Tests.Images.{image_of, layer_with, layer_ops, layer_ops-AddsLayer}

abbrev conf : Entries
conf =
    entry (codes "a")
      (file (ok (record { contents = codes "abc"; failure = none; close = ok nothing }, 3))) end

conf_readable : AreReadable Opens conf
conf_readable = (one_letter-IsPlainName b'a' (omega arith) (omega arith), (refl, refl, refl), tt)

abbrev host : Host
host = record { find = λ p. ok (false, dir conf) }

abbrev web : Web
web = record {
  parse = λ p. ok (record { scheme = []; path = p; text = p });
  head = λ p. err fault;
  get = λ p. err fault;
}

abbrev conf_sources : Sources (Unit {0})
conf_sources =
    local_sources host web (λ p. err not_exist) (λ s. ok 0) (λ link layer. layer) (λ s. codes "00")

abbrev conf_file : File
conf_file = record { source = codes "conf"; destination = codes "/etc"; mode = [] }

mutate_image_with_file-AreReadable_example :
    (img : Container.Image) × (fs : List Tar.File) × (mutate_image_with_file layer_ops conf_sources
        (image_of (layer_with (codes "base") ∷ []))
        conf_file
        []
        tt
      ≡ (ok img, tt))
    × (img.layers
        ≡ ok (
            (layer_with (codes "base") ∷ [])
            ++ map
                (layer_of layer_ops conf_sources
                  (codes "m")
                  []
                  (λ v. sum_file_info layer_ops conf_sources [] v.path conf_file))
                fs))
    × All IsGood fs
    × All (Among fs) (tree 420 conf (codes "/etc"))
mutate_image_with_file-AreReadable_example =
    mutate_image_with_file-AreReadable layer_ops host web (λ p. err not_exist) (λ s. ok 0)
      (λ link layer. layer) (λ s. codes "00") (image_of (layer_with (codes "base") ∷ []))
      (codes "conf") (codes "/etc") [] (codes "m") (layer_with (codes "base") ∷ []) conf tt
      layer_ops-AddsLayer (λ img a. (_, refl)) refl refl ((λ e. cc), λ e. cc) refl conf_readable
