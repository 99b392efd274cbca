-- ===== src/Builder/Link.antt =====
-- pkg/builder/cache_file_layer.go: a layer that keeps its digest, its size and the digest of its
-- contents in a link file, for a later layer that has not been read.
pub mod Scan
pub mod Reuse
use jitdi.Base.{
  ℕ, ◌*◌, ◌+◌, ◌-◌, ◌^◌, ◌≡◌, Bool, true, false, not, ◌&&◌, ◌||◌, List, [], ◌∷◌, ◌++◌, Bytes, codes,
  bytes_eq, is_digit, scan_digits, decimal, ltb, ◌==◌, if◌then◌else◌,
}
use jitdi.Exec.{
  Error, Result, ok, err, not_exist, not_computed, bad_link, ◌>>=◌, try, pure, raise, lift,
}
use jitdi.Exec.Pure
use jitdi.Disk.{M, read}
use jitdi.Atomic.Files.{write_file}
use jitdi.Container.{Hash, hash_string}

-- What the wrapped `v1.Layer` returns; a layer that streams and was not read yet knows nothing.
pub record Layer : Type 0 where
  pub digest : Result Hash
  pub size : Result ℕ
  pub diff_id : Result Hash

pub record CacheFileLayer : Type 0 where
  pub link_path : Bytes
  pub layer : Layer
  pub diff_id : Hash
  pub size : ℕ

-- `v1.Hash{}`
abbrev pub no_hash : Hash
no_hash = record { algorithm = []; hex = [] }

unfoldable pub new_cache_file_layer : Bytes → Layer → CacheFileLayer
new_cache_file_layer link_path layer = record {
  link_path = link_path;
  layer = layer;
  diff_id = no_hash;
  size = 0;
}

-- `fmt.Sprintf("%s %s %d", …)`
unfoldable pub link_info : Hash → Hash → ℕ → Bytes
unfolding decimal
link_info digest diff_id size =
    hash_string digest ++ b' ' ∷ (hash_string diff_id ++ b' ' ∷ decimal size)

unfoldable pub encode_link_info : Bytes → Hash → Hash → ℕ → M (Unit {0})
unfolding write_file link_info
encode_link_info link_path digest diff_id size =
    write_file link_path (link_info digest diff_id size)

-- The white space of ASCII, of which fmt knows more.
abbrev pub is_space : ℕ → Bool
is_space c = c == b' ' || (not (ltb c 9) && not (ltb 13 c))

-- Before each verb; a line may not end there.
unfoldable pub skip_space : Bytes → Result Bytes
skip_space [] = ok []
skip_space (c ∷ s) =
    let rest = skip_space s in
    if c == 10 then err bad_link else if is_space c then rest else ok (c ∷ s)

-- Up to the next space.
unfoldable pub token : Bytes → Bytes × Bytes
token [] = ([], [])
token (c ∷ s) = let (t, rest) = token s in if is_space c then ([], c ∷ s) else (c ∷ t, rest)

-- `%s`, which takes at least one byte.
unfoldable pub scan_string : Bytes → Result (Bytes × Bytes)
unfolding skip_space token
scan_string s =
    Pure.◌>>=◌ (skip_space s) λ s'. elim s' [ [] ↦ err bad_link | c ∷ r ↦ ok (token (c ∷ r)) ]

scan_number : ℕ → Bytes → Result ℕ
unfolding scan_digits
scan_number limit [] = err bad_link
scan_number limit (c ∷ s) =
    let n = scan_digits (c ∷ s) 0 in if not (is_digit c) || ltb limit n then err bad_link else ok n

abbrev pub max_int64 : ℕ
max_int64 = 2 ^ 63 - 1

-- A negative size is taken for 0, as which `Size` treats it.
scan_signed : Bytes → Result ℕ
unfolding scan_number
scan_signed [] = err bad_link
scan_signed (c ∷ s) =
    if c == b'-'
    then Pure.◌>>=◌ (scan_number (2 ^ 63) s) (λ _. ok 0)
    else scan_number max_int64 (if c == b'+' then s else c ∷ s)

-- `%d` of an int64
unfoldable pub scan_int : Bytes → Result ℕ
unfolding skip_space scan_signed
scan_int s = Pure.◌>>=◌ (skip_space s) scan_signed

-- `fmt.Sscanf(c, "%s %s %d", …)`, which leaves what follows.
unfoldable pub scan_link_info : Bytes → Result (Bytes × Bytes × ℕ)
unfolding scan_string scan_int
scan_link_info c = Pure.◌>>=◌ (scan_string c) λ (d, c').
    Pure.◌>>=◌ (scan_string c') λ (f, c''). Pure.◌>>=◌ (scan_int c'') λ size. ok (d, f, size)

-- `new_hash` is `v1.NewHash`.
module _ (new_hash : Bytes → Result Hash) where
  unfoldable pub parse_link_info : Bytes → Result (Hash × Hash × ℕ)
  unfolding scan_link_info
  parse_link_info c = Pure.◌>>=◌ (scan_link_info c) λ (d, f, size).
      Pure.◌>>=◌ (new_hash d)
        λ digest. Pure.◌>>=◌ (new_hash f) λ diff_id. ok (digest, diff_id, size)

  unfoldable pub decode_link_info : Bytes → M (Hash × Hash × ℕ)
  unfolding read parse_link_info
  decode_link_info link_path = read link_path >>= λ c. lift (parse_link_info c)

  -- Behind `os.Stat`, where the digest is known.
  after_stat : CacheFileLayer → Hash → Result Bytes → M (Hash × CacheFileLayer)
  unfolding encode_link_info
  after_stat c digest (err not_exist) = lift c.layer.size >>= λ size.
      lift c.layer.diff_id >>= λ diff_id.
      try (encode_link_info c.link_path digest diff_id size) λ _. pure (digest, c)
  after_stat c digest r = pure (digest, c)

  -- Behind `decodeLinkInfo`.
  after_decode : CacheFileLayer → Result (Hash × Hash × ℕ) → M (Hash × CacheFileLayer)
  after_decode c (ok (h, diff_id, size)) = pure (h, record c { size = size; diff_id = diff_id })
  after_decode c (err e) = raise not_computed

  -- Behind the digest of the layer.
  digest_from : CacheFileLayer → Result Hash → M (Hash × CacheFileLayer)
  unfolding read after_stat decode_link_info after_decode
  digest_from c (ok digest) = try (read c.link_path) (after_stat c digest)
  digest_from c (err not_computed) = try (decode_link_info c.link_path) (after_decode c)
  digest_from c (err e) = raise e

  -- The digest, and the layer as the call leaves it.
  unfoldable pub cached_digest : CacheFileLayer → M (Hash × CacheFileLayer)
  unfolding digest_from
  cached_digest c = digest_from c c.layer.digest

unfoldable pub cached_size : CacheFileLayer → Result ℕ
cached_size c = if ltb 0 c.size then ok c.size else c.layer.size

unfoldable pub cached_diff_id : CacheFileLayer → Result Hash
unfolding bytes_eq
cached_diff_id c =
    if bytes_eq c.diff_id.algorithm [] && bytes_eq c.diff_id.hex []
    then c.layer.diff_id
    else ok c.diff_id
