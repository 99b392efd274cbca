-- ===== src/Builder/Link/Reuse.antt =====
-- pkg/builder/cache_file_layer.go: what a layer that has not been read takes from its link.
use jitdi.Base.{
  ℕ, ◌≡◌, ◌≢◌, ◌≤◌, ◌<◌, refl, ap, ◌∙◌, none, some, [], Bytes, lookup, bytes_eq_refl, bytes_eq_iff,
  arith, if◌then◌else◌,
}
use jitdi.Exec.{Result, ok, err, not_exist, not_computed, ◌>>=◌}
use jitdi.Container.{Hash, hash_string}
use jitdi.Disk.{M, Disk, read}
use jitdi.Atomic.Files.{write_file}
use jitdi.Atomic.Files.Outcomes.{write_file_no_fault, write_file-faults}
use jitdi.Builder.Link.{
  Layer, CacheFileLayer, new_cache_file_layer, link_info, max_int64, parse_link_info,
  encode_link_info, decode_link_info, cached_digest, cached_size, cached_diff_id,
}
use jitdi.Builder.Link.Scan.{IsWord, scan_link_info-link_info}

read_found :
    (p s : Bytes) (d : Disk) → d.faults ≡ [] → lookup p d.files ≡ some s → read p d ≡ (ok s, d)
unfolding read
read_found p s d h e = ground arith

read_absent :
    (p : Bytes) (d : Disk) → d.faults ≡ [] → lookup p d.files ≡ none → read p d ≡ (err not_exist, d)
unfolding read
read_absent p d h e = ground arith

-- The layer knows its digest, that of its contents and its size.
abbrev pub IsComputed : Layer → Hash → Hash → ℕ → Type 0
IsComputed a h d n = (a.digest ≡ ok h) × (a.diff_id ≡ ok d) × (a.size ≡ ok n)

-- The text of a hash has no space, and `NewHash` reads it back.
abbrev pub IsReadBack : (Bytes → Result Hash) → Hash → Type 0
IsReadBack new_hash h = IsWord (hash_string h) × (new_hash (hash_string h) ≡ ok h)

module _ (new_hash : Bytes → Result Hash) (link : Bytes) where
  parse_link_info-link_info :
      (h d : Hash) (n : ℕ)
      → IsReadBack new_hash h
      → IsReadBack new_hash d
      → n ≤ max_int64
      → parse_link_info new_hash (link_info h d n) ≡ ok (h, d, n)
  unfolding parse_link_info
  parse_link_info-link_info h d n (wh, eh) (wd, ed) l =
      rw (scan_link_info-link_info h d n wh wd l, eh, ed) refl

  -- The first layer that is read writes the link.
  cached_digest_first :
      (a : Layer) (h d : Hash) (n : ℕ) (disk : Disk)
      → IsComputed a h d n
      → disk.faults ≡ []
      → lookup link disk.files ≡ none
      → cached_digest new_hash (new_cache_file_layer link a) disk
        ≡ (ok (h, new_cache_file_layer link a), (write_file link (link_info h d n) disk).1)
  unfolding cached_digest new_cache_file_layer encode_link_info
  cached_digest_first a h d n disk (eh, ed, en) calm absent =
      simp (eh, read_absent link disk calm absent, en, ed) refl

  -- A later one leaves it.
  cached_digest_later :
      (b : Layer) (h : Hash) (s : Bytes) (disk : Disk)
      → b.digest ≡ ok h
      → disk.faults ≡ []
      → lookup link disk.files ≡ some s
      → cached_digest new_hash (new_cache_file_layer link b) disk
        ≡ (ok (h, new_cache_file_layer link b), disk)
  unfolding cached_digest new_cache_file_layer encode_link_info
  cached_digest_later b h s disk eh calm found = simp (eh, read_found link s disk calm found) refl

  cached_digest_unread :
      (c : Layer) (h d : Hash) (n : ℕ) (disk : Disk)
      → c.digest ≡ err not_computed
      → IsReadBack new_hash h
      → IsReadBack new_hash d
      → n ≤ max_int64
      → disk.faults ≡ []
      → lookup link disk.files ≡ some (link_info h d n)
      → cached_digest new_hash (new_cache_file_layer link c) disk
        ≡ (ok (h, record (new_cache_file_layer link c) { size = n; diff_id = d }), disk)
  unfolding cached_digest new_cache_file_layer decode_link_info
  cached_digest_unread c h d n disk ec rh rd l calm found =
      simp
        (
          ec,
          read_found link (link_info h d n) disk calm found,
          parse_link_info-link_info h d n rh rd l,
        )
        refl

-- The digests of three layers of the same link, asked for one after the other.
abbrev pub in_turn :
    (Bytes → Result Hash) → Bytes → Layer → Layer → Layer → M (Hash × CacheFileLayer)
in_turn new_hash link a b c = cached_digest new_hash (new_cache_file_layer link a) >>= λ _.
    cached_digest new_hash (new_cache_file_layer link b) >>= λ _.
    cached_digest new_hash (new_cache_file_layer link c)

-- Without a fault, a layer that was not read yet returns the digest, the size and the digest of the
-- contents of the first layer that was read under its link, if the texts of the two hashes have no
-- space and are read back as the hashes, the size is a positive int64 and the contents' digest is not
-- empty; and so it does if another layer was read there since, whose digest may be another one.
pub cached_digest_lem :
    (new_hash : Bytes → Result Hash) (link : Bytes) (a b c : Layer) (h d h' : Hash) (n : ℕ)
    (disk : Disk)
    → disk.faults ≡ []
    → lookup link disk.files ≡ none
    → IsComputed a h d n
    → b.digest ≡ ok h'
    → c.digest ≡ err not_computed
    → IsReadBack new_hash h
    → IsReadBack new_hash d
    → d.hex ≢ []
    → 0 < n
    → n ≤ max_int64
    → (c' : CacheFileLayer) × ((in_turn new_hash link a b c disk).0 ≡ ok (h, c'))
      × (cached_size c' ≡ ok n)
      × (cached_diff_id c' ≡ ok d)
unfolding cached_size cached_diff_id
cached_digest_lem new_hash link a b c h d h' n disk calm absent computed eb ec rh rd nonzero pos l =
    let (_, written) = write_file_no_fault link (link_info h d n) disk calm in
    let still = write_file-faults link (link_info h d n) disk calm in
    let found : lookup link (write_file link (link_info h d n) disk).1.files
        ≡ some (link_info h d n) =
      written link
      ∙ ap (λ t. if t then some (link_info h d n) else lookup link disk.files)
          (bytes_eq_refl link) in
    (
      record (new_cache_file_layer link c) { size = n; diff_id = d },
      rw
          (
            cached_digest_first new_hash link a h d n disk computed calm absent,
            cached_digest_later new_hash link b h' (link_info h d n)
                (write_file link (link_info h d n) disk).1 eb still found,
            cached_digest_unread new_hash link c h d n (write_file link (link_info h d n) disk).1 ec
                rh rd l still found,
          )
          refl,
      ground arith,
      ground (arith, bytes_eq_iff d.hex []),
    )
