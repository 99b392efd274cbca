-- ===== src/Builder/Files.antt =====
-- pkg/builder/files/files.go: the files that a source of a mutation gives, from the host or by HTTP.
pub mod Walk
pub mod Local
use jitdi.Base.{
  ℕ, ◌≡◌, refl, Bool, true, false, ◌||◌, Option, none, some, List, [], ◌∷◌, ◌++◌, Bytes, codes,
  bytes_eq, has_suffix, path_join, path_base, if◌then◌else◌, ◌==◌,
}
use jitdi.Exec.{Error, Result, ok, err, bad_status, unknown_length}
use jitdi.Exec.Pure.{◌>>=◌}
use jitdi.Builder.Tar.{Reader, File}

-- What lies on the host: a file, by what opening it and asking for its size returns, a directory by
-- its entries in the order of their names, or one that cannot be read.
mutual
  pub data Node : Type 0 where
    file : Result (Reader × ℕ) → Node
    dir : Entries → Node
    closed : Error → Node

  pub data Entries : Type 0 where
    end : Entries
    entry : Bytes → Node → Entries → Entries

-- `os.Stat`, which follows a link, with whether the path itself is a link.
pub record Host : Type 0 where
  pub find : Bytes → Result (Bool × Node)

-- `http.Response`; the length is `none` where the server did not say.
pub record Response : Type 0 where
  pub status : ℕ
  pub content_length : Option ℕ
  pub body : Reader

-- `url.URL` with its text.
pub record Url : Type 0 where
  pub scheme : Bytes
  pub path : Bytes
  pub text : Bytes

-- `url.Parse`, `http.Head` by the status that it returns, and a GET by the client.
pub record Web : Type 0 where
  pub parse : Bytes → Result Url
  pub head : Bytes → Result ℕ
  pub get : Bytes → Result Response

-- The size of a body, which must be known.
known_length : Response → Option ℕ → Result (Reader × ℕ)
known_length resp none = err unknown_length
known_length resp (some n) = if n == 0 then err unknown_length else ok (resp.body, n)

-- `OpenReader` of a remote file.
unfoldable pub open_remote : Result Response → Result (Reader × ℕ)
unfolding known_length
open_remote (err e) = err e
open_remote (ok resp) =
    if resp.status == 200 then known_length resp resp.content_length else err bad_status

-- The struct `Files`, its mode, with the host and the network.
module _ (mode : ℕ) where
  unfoldable pub tar_file_to_file : Result (Reader × ℕ) → Bytes → File
  tar_file_to_file opened new_path = record { path = new_path; mode = mode; open_reader = opened }

  unfoldable pub tar_file_in_dir : Result (Reader × ℕ) → Bytes → Bytes → File
  unfolding tar_file_to_file path_join path_base
  tar_file_in_dir opened host_path d =
      tar_file_to_file opened (path_join (d ∷ path_base host_path ∷ []))

  -- `filepath.Walk` with the function of `tarDirToDir`, at what lies at `p`: the function calls
  -- `tarDirToDir` on a directory, and then `Walk` itself goes into it. No path below the root is the
  -- root's own, on which the function does nothing.
  unfoldable mutual
    unfolding tar_file_to_file path_join path_base

    pub visit : Node → Bytes → Bytes → Result (List File)
    visit (file opened) p new_path =
        ok (tar_file_to_file opened (path_join (new_path ∷ path_base p ∷ [])) ∷ [])
    visit (closed e) p new_path = err e
    visit (dir es) p new_path = do
      files ← walk es p (path_join (new_path ∷ path_base p ∷ []))
      others ← walk es p new_path
      ok (files ++ others)

    pub walk : Entries → Bytes → Bytes → Result (List File)
    walk end host_path new_path = ok []
    walk (entry name node es) host_path new_path = do
      files ← visit node (path_join (host_path ∷ name ∷ [])) new_path
      others ← walk es host_path new_path
      ok (files ++ others)

  -- From the root on, which `Walk` does not go into if it is a link, and on which the function
  -- returns no error.
  unfoldable pub tar_dir_to_dir : Bool → Node → Bytes → Bytes → Result (List File)
  unfolding walk
  tar_dir_to_dir false (dir es) host_path new_path = walk es host_path new_path
  tar_dir_to_dir is_link node host_path new_path = ok []

  -- Behind `os.Stat`.
  tar_found : Bytes → Bytes → Bool → Node → Result (List File)
  unfolding tar_dir_to_dir tar_file_in_dir tar_file_to_file has_suffix
  tar_found host_path new_path is_link (file opened) =
      if has_suffix new_path (codes "/")
      then ok (tar_file_in_dir opened host_path new_path ∷ [])
      else ok (tar_file_to_file opened new_path ∷ [])
  tar_found host_path new_path is_link node = tar_dir_to_dir is_link node host_path new_path

  unfoldable pub tar_local : Host → Bytes → Bytes → Result (List File)
  unfolding tar_found
  tar_local host host_path new_path = do
    found ← host.find host_path
    tar_found host_path new_path found.0 found.1

  -- Behind the status of `http.Head`.
  tar_head : Web → Bytes → Bytes → ℕ → Result File
  unfolding open_remote
  tar_head web uri new_path status =
      if status == 200
      then ok (record { path = new_path; mode = mode; open_reader = open_remote (web.get uri) })
      else err bad_status

  unfoldable pub tar_remote_file_to_file : Web → Url → Bytes → Result File
  unfolding tar_head
  tar_remote_file_to_file web u new_path = do
    status ← web.head u.text
    tar_head web u.text new_path status

  unfoldable pub tar_remote_file_in_dir : Web → Url → Bytes → Result File
  unfolding tar_remote_file_to_file path_join path_base
  tar_remote_file_in_dir web u d =
      tar_remote_file_to_file web u (path_join (d ∷ path_base u.path ∷ []))

  unfoldable pub tar_remote : Web → Url → Bytes → Result File
  unfolding tar_remote_file_to_file tar_remote_file_in_dir has_suffix
  tar_remote web u new_path =
      if has_suffix new_path (codes "/")
      then tar_remote_file_in_dir web u new_path
      else tar_remote_file_to_file web u new_path

  -- Behind `url.Parse`, whose error makes the path a local one.
  tar_parsed : Host → Web → Bytes → Bytes → Result Url → Result (List File)
  unfolding tar_local tar_remote bytes_eq
  tar_parsed host web host_path new_path (err e) = tar_local host host_path new_path
  tar_parsed host web host_path new_path (ok u) =
      if bytes_eq u.scheme (codes "http") || bytes_eq u.scheme (codes "https")
      then (do f ← tar_remote web u new_path; ok (f ∷ []))
      else tar_local host host_path new_path

  -- `Build`, which is `tarAny`.
  unfoldable pub build : Host → Web → Bytes → Bytes → Result (List File)
  unfolding tar_parsed
  build host web host_path new_path = tar_parsed host web host_path new_path (web.parse host_path)
