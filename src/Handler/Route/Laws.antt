-- ===== src/Handler/Route/Laws.antt =====
-- pkg/handler/handler.go: which paths `ServeHTTP` takes for blobs and manifests.
use jitdi.Base.{
  onto, split, join, split-Lacks, split-append, join-split, ◌≡◌, ◌≢◌, refl, ap, ◌∙◌, ◌⊎◌, ℕ, List,
  [], ◌∷◌, ◌++◌, append-nil, append_assoc, arith, Bool, true, Bytes, codes, Lacks, ◌||◌, bytes_eq,
  bytes_eq_iff,
}
use jitdi.Handler.Route.{Route, last_parts, route_type, route_parts, route, manifests, blobs}

last_parts_step :
    (k : Bytes → Bytes → Bytes → Route) (acc fs : List Bytes) (x t l : Bytes)
    → last_parts acc (x ∷ fs ++ t ∷ l ∷ []) k ≡ last_parts (acc ++ x ∷ []) (fs ++ t ∷ l ∷ []) k
unfolding last_parts
last_parts_step k acc [] x t l = refl
last_parts_step k acc (y ∷ []) x t l = refl
last_parts_step k acc (y ∷ z ∷ fs) x t l = refl

last_parts-append :
    (k : Bytes → Bytes → Bytes → Route) (acc fs : List Bytes) (t l : Bytes)
    → last_parts acc (fs ++ t ∷ l ∷ []) k ≡ k (join (codes "/") (acc ++ fs)) t l
last_parts-append k acc [] t l = unfold last_parts in rw append-nil
last_parts-append k acc (x ∷ fs) t l =
    last_parts_step k acc fs x t l ∙ last_parts-append k (acc ++ x ∷ []) fs t l ∙ rw append_assoc

-- The path of a manifest or a blob.
abbrev pub resource_path : Bytes → Bytes → Bytes → Bytes
resource_path image typ l = codes "/v2/" ++ (image ++ b'/' ∷ (typ ++ b'/' ∷ l))

split_v2 : (s : Bytes) → split b'/' (codes "/v2/" ++ s) ≡ [] ∷ codes "v2" ∷ split b'/' s
unfolding split onto
split_v2 s = refl

split-resource_path :
    (image typ l : Bytes)
    → Lacks b'/' typ
    → Lacks b'/' l
    → split b'/' (resource_path image typ l) ≡ [] ∷ codes "v2" ∷ (split b'/' image ++ typ ∷ l ∷ [])
split-resource_path image typ l ht hl =
    split_v2 (image ++ b'/' ∷ (typ ++ b'/' ∷ l))
    ∙ ap (λ t. [] ∷ codes "v2" ∷ t)
        (split-append b'/' image (typ ++ b'/' ∷ l)
          ∙ ap (λ t. split b'/' image ++ t)
              (split-append b'/' typ l ∙ rw (split-Lacks b'/' typ ht, split-Lacks b'/' l hl)))

route_parts-append :
    (fs : List Bytes) (typ l : Bytes)
    → route_parts ([] ∷ codes "v2" ∷ (fs ++ typ ∷ l ∷ [])) ≡ route_type (join (codes "/") fs) typ l
unfolding route_parts
route_parts-append fs typ l = last_parts-append route_type [] fs typ l

route_parts-resource_path :
    (image typ l : Bytes)
    → Lacks b'/' typ
    → Lacks b'/' l
    → route_parts (split b'/' (resource_path image typ l)) ≡ route_type image typ l
route_parts-resource_path image typ l ht hl =
    ap route_parts (split-resource_path image typ l ht hl)
    ∙ route_parts-append (split b'/' image) typ l
    ∙ ap (λ t. route_type t typ l) (join-split b'/' image)

-- The two methods that are served.
abbrev pub IsRead : Bytes → Type 0
IsRead m = (m ≡ codes "GET") ⊎ (m ≡ codes "HEAD")

abbrev is_read : Bytes → Bool
is_read m = bytes_eq m (codes "GET") || bytes_eq m (codes "HEAD")

IsRead→is_read : (m : Bytes) → IsRead m → is_read m ≡ true
IsRead→is_read m h = ground (arith, bytes_eq_iff m (codes "GET"), bytes_eq_iff m (codes "HEAD"))

-- behind the three tests
route_behind :
    (m s : Bytes)
    → IsRead m
    → s ≢ []
    → route m (codes "/v2/" ++ s) ≡ route_parts (split b'/' (codes "/v2/" ++ s))
unfolding route
route_behind m [] h ne = absurd (ne refl)
route_behind m (c ∷ s) h ne = rw (IsRead→is_read m h)

append_cons-ne-nil : (a : Bytes) (c : ℕ) (b : Bytes) → a ++ c ∷ b ≢ []
append_cons-ne-nil [] c b = λ e. cc
append_cons-ne-nil (x ∷ a) c b = λ e. cc

route_type_manifests :
    (image l : Bytes) → route_type image (codes "manifests") l ≡ manifests image l
unfolding route_type
route_type_manifests image l = refl

route_type_blobs : (image l : Bytes) → route_type image (codes "blobs") l ≡ blobs image l
unfolding route_type
route_type_blobs image l = refl

-- A GET or a HEAD of `/v2/IMAGE/manifests/TAG` is a request for the manifest TAG of IMAGE, whatever
-- slashes IMAGE has, and `/v2/IMAGE/blobs/HASH` one for a blob, if TAG and HASH have no slash.
pub route-resource_path :
    (m image l : Bytes)
    → IsRead m
    → Lacks b'/' l
    → (route m (resource_path image (codes "manifests") l) ≡ manifests image l)
      × (route m (resource_path image (codes "blobs") l) ≡ blobs image l)
route-resource_path m image l r h = (
  route_behind m _ r (append_cons-ne-nil image b'/' _)
      ∙ route_parts-resource_path image (codes "manifests") l (omega arith) h
      ∙ (route_type_manifests image l),
  route_behind m _ r (append_cons-ne-nil image b'/' _)
      ∙ route_parts-resource_path image (codes "blobs") l (omega arith) h
      ∙ (route_type_blobs image l),
)
