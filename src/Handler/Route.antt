-- ===== src/Handler/Route.antt =====
-- pkg/handler/handler.go: `ServeHTTP`, from a request's method and path to the handler that answers.
pub mod Laws
use jitdi.Base.{
  split, join, ℕ, Bool, true, false, ◌||◌, not, Option, none, some, List, [], ◌∷◌, ◌++◌, Bytes,
  codes, has_prefix, bytes_eq, length, ltb, if◌then◌else◌, ◌==◌,
}

-- Where a request goes: an error, the version check, or a handler with its arguments.
pub data Route : Type 0 where
  not_found unsupported version_check : Route
  blobs manifests : Bytes → Bytes → Route

-- `image`, `typ` and the last part, of the parts behind the first two; there may be too few.
unfoldable pub last_parts : List Bytes → List Bytes → (Bytes → Bytes → Bytes → Route) → Route
unfolding join
last_parts front (p ∷ q ∷ []) next = next (join (codes "/") front) p q
last_parts front (p ∷ q ∷ r ∷ parts) next = last_parts (front ++ p ∷ []) (q ∷ r ∷ parts) next
last_parts front _ next = not_found

-- `switch typ`
unfoldable pub route_type : Bytes → Bytes → Bytes → Route
unfolding bytes_eq
route_type image typ l =
    if bytes_eq typ (codes "blobs")
    then blobs image l
    else if bytes_eq typ (codes "manifests")
    then manifests image l
    else not_found

-- From the test `len(parts) < 4` on; `parts[0]` and `parts[1]` are not read.
unfoldable pub route_parts : List Bytes → Route
unfolding last_parts route_type
route_parts (_ ∷ _ ∷ parts) = last_parts [] parts route_type
route_parts _ = not_found

unfoldable pub route : Bytes → Bytes → Route
unfolding route_parts split has_prefix bytes_eq
route method path =
    if not (has_prefix path (codes "/v2/"))
    then not_found
    else if not (bytes_eq method (codes "GET") || bytes_eq method (codes "HEAD"))
    then unsupported
    else if bytes_eq path (codes "/v2/")
    then version_check
    else route_parts (split b'/' path)
