-- ===== src/Builder/Files/Local.antt =====
-- pkg/builder/files/files.go: what a directory of the host gives, and the archive of it.
use jitdi.Base.{
  ◌≢◌, codes, bytes_eq_iff, ℕ, ◌≡◌, refl, ◌∙◌, false, List, Bytes, length, All, All-map, Among,
  arith, none, map,
}
use jitdi.Exec.{Result, ok, err}
use jitdi.Builder.Tar.{File, start_tar}
use jitdi.Builder.Tar.Complete.{Opens, IsGood, entry_of, start_tar_iff}
use jitdi.Builder.Files.{
  dir, Entries, Host, Web, Url, tar_parsed, walk, tar_dir_to_dir, tar_local, build,
}
use jitdi.Builder.Files.Walk.{AreReadable, tree, flat, weight, walk-Gives}

-- The path is no address of HTTP.
abbrev pub IsLocal : Result Url → Type 0
IsLocal (err e) = Unit
IsLocal (ok u) = (u.scheme ≢ codes "http") × (u.scheme ≢ codes "https")

tar_parsed_local :
    (mode : ℕ) (host : Host) (web : Web) (host_path new_path : Bytes) (r : Result Url)
    → IsLocal r
    → tar_parsed mode host web host_path new_path r ≡ tar_local mode host host_path new_path
unfolding tar_parsed
tar_parsed_local mode host web host_path new_path (err e) h = refl
tar_parsed_local mode host web host_path new_path (ok u) h =
    ground (arith, bytes_eq_iff u.scheme (codes "http"), bytes_eq_iff u.scheme (codes "https"))

module _ (mode : ℕ) (host : Host) (web : Web) (host_path new_path : Bytes) (es : Entries)
    (local : IsLocal (web.parse host_path)) (found : host.find host_path ≡ ok (false, dir es)) where
  build_dir : build mode host web host_path new_path ≡ walk mode es host_path new_path
  unfolding build tar_local tar_dir_to_dir
  build_dir =
      tar_parsed_local mode host web host_path new_path (web.parse host_path) local ∙ rw found refl

  -- What `build` returns of a readable directory.
  pub build-AreReadable :
      AreReadable Opens es
      → (fs : List File) × (build mode host web host_path new_path ≡ ok fs)
        × All IsGood fs
        × All (Among fs) (tree mode es new_path)
  build-AreReadable h =
      let (fs, given, inside, _, _, good) = walk-Gives Opens mode es host_path new_path h in
      (fs, build_dir ∙ given, good, inside)

  -- A directory of the host that is no link, whose directories can all be listed, whose files can all
  -- be read to the end that they have when they are opened, and whose names are plain, gives an
  -- archive without an error in which every file of the directory is, under its own path moved to the
  -- new one.
  pub build-start_tar :
      AreReadable Opens es
      → (fs : List File) × (build mode host web host_path new_path ≡ ok fs)
        × ((start_tar fs).error ≡ none)
        × All (Among (start_tar fs).entries) (map entry_of (tree mode es new_path))
  build-start_tar h =
      let (fs, given, good, inside) = build-AreReadable h in
      let ((_, none_of), (_, archive)) = start_tar_iff fs in
      (
        fs,
        given,
        none_of good,
        rw (archive good) (All-map entry_of fs (tree mode es new_path) inside),
      )

  -- A directory of the host that is no link, whose directories can all be listed and whose names are
  -- plain also gives every file that lies in it, at whatever depth, directly in the new directory. It
  -- gives as many files as it has, each counted twice for every directory below the root that it lies
  -- in.
  pub build-length :
      AreReadable (λ _. Unit {0}) es
      → (fs : List File) × (build mode host web host_path new_path ≡ ok fs)
        × All (Among fs) (flat mode es new_path)
        × (length fs ≡ weight es)
  build-length h =
      let (fs, given, _, flattened, many, _) =
        walk-Gives (λ _. Unit {0}) mode es host_path new_path h in
      (fs, build_dir ∙ given, flattened, many)
