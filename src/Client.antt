-- ===== src/Client.antt =====
-- pkg/client/clientset/versioned/typed/apis/v1alpha1: the typed clients of images and registries, which
-- are the same but for the names of the resource and its kind.
pub mod Fake
pub mod Server
pub mod Agreement
mod Tests
use Prim.Native.Nat.{◌%◌}
use jitdi.Base.{ℕ, ◌*◌, ◌^◌, Bool, true, false, Option, none, some, List, [], ◌∷◌, Bytes, codes}
use jitdi.Exec.{Exec, ◌>>=◌, ◌>>◌, pure}

-- The library's types: an object with its name, the metadata of a list, a watch, and the options but
-- for the two fields of `ListOptions` that the clients use.
pub record ClientTypes : Type 1 where
  pub Object : Type 0
  pub name_of : Object → Bytes
  pub ListMeta : Type 0
  pub Watched : Type 0
  pub GetOptions : Type 0
  pub Selection : Type 0
  pub CreateOptions : Type 0
  pub UpdateOptions : Type 0
  pub DeleteOptions : Type 0
  pub PatchOptions : Type 0

pub record ListOptions (T : ClientTypes) : Type 0 where
  pub timeout_seconds : Option ℕ
  pub watch : Bool
  pub selection : T.Selection

pub record ObjectList (T : ClientTypes) : Type 0 where
  pub list_meta : T.ListMeta
  pub items : List T.Object

-- `ImageInterface`; a pointer that is returned may be nil.
pub record ObjectInterface (S : Type 0) (T : ClientTypes) : Type 0 where
  pub create : T.Object → T.CreateOptions → Exec S (Option T.Object)
  pub update : T.Object → T.UpdateOptions → Exec S (Option T.Object)
  pub update_status : T.Object → T.UpdateOptions → Exec S (Option T.Object)
  pub delete : Bytes → T.DeleteOptions → Exec S (Unit {0})
  pub delete_collection : T.DeleteOptions → ListOptions T → Exec S (Unit {0})
  pub get : Bytes → T.GetOptions → Exec S (Option T.Object)
  pub list : ListOptions T → Exec S (Option (ObjectList T))
  pub watch : ListOptions T → Exec S T.Watched
  pub patch : Bytes → Bytes → Bytes → T.PatchOptions → List Bytes → Exec S (Option T.Object)

pub data Verb : Type 0 where
  get post put delete : Verb
  patch : Bytes → Verb

pub data Params (T : ClientTypes) : Type 0 where
  get_params : T.GetOptions → Params T
  list_params : ListOptions T → Params T
  create_params : T.CreateOptions → Params T
  update_params : T.UpdateOptions → Params T
  patch_params : T.PatchOptions → Params T

pub data Body (T : ClientTypes) : Type 0 where
  object : T.Object → Body T
  delete_options : T.DeleteOptions → Body T
  raw : Bytes → Body T

-- What the calls on a `rest.Request` have set.
pub record Request (T : ClientTypes) : Type 0 where
  pub verb : Verb
  pub resource : Bytes
  pub name : Option Bytes
  pub sub_resource : List Bytes
  pub params : Option (Params T)
  pub timeout : Option ℕ
  pub body : Option (Body T)

-- `Do(ctx)` with `Into` an object or a list or with `Error`, and `Watch(ctx)`.
pub record RestClient (S : Type 0) (T : ClientTypes) : Type 0 where
  pub into_object : Request T → Exec S T.Object
  pub into_list : Request T → Exec S (ObjectList T)
  pub do_error : Request T → Exec S (Unit {0})
  pub do_watch : Request T → Exec S T.Watched

module _ {T : ClientTypes} where
  abbrev request : Verb → Bytes → Request T
  request verb resource = record {
    verb = verb;
    resource = resource;
    name = none;
    sub_resource = [];
    params = none;
    timeout = none;
    body = none;
  }

  -- `time.Duration(*opts.TimeoutSeconds) * time.Second`; an `int64` is given by its 64 bits.
  unfoldable pub timeout_of : ListOptions T → ℕ
  timeout_of opts = elim opts.timeout_seconds [ none ↦ 0 | some n ↦ (n * 1000000000) % 2 ^ 64 ]

  unfoldable pub get_request : Bytes → Bytes → T.GetOptions → Request T
  get_request resource name options = record (request get resource) {
    name = some name;
    params = some (get_params options);
  }

  unfoldable pub list_request : Bytes → ListOptions T → Request T
  unfolding timeout_of
  list_request resource opts = record (request get resource) {
    params = some (list_params opts);
    timeout = some (timeout_of opts);
  }

  unfoldable pub watch_request : Bytes → ListOptions T → Request T
  unfolding list_request
  watch_request resource opts = list_request resource (record opts { watch = true })

  unfoldable pub create_request : Bytes → T.Object → T.CreateOptions → Request T
  create_request resource o opts = record (request post resource) {
    params = some (create_params opts);
    body = some (object o);
  }

  unfoldable pub update_request : Bytes → List Bytes → T.Object → T.UpdateOptions → Request T
  update_request resource sub o opts = record (request put resource) {
    name = some (T.name_of o);
    sub_resource = sub;
    params = some (update_params opts);
    body = some (object o);
  }

  unfoldable pub delete_request : Bytes → Bytes → T.DeleteOptions → Request T
  delete_request resource name opts = record (request delete resource) {
    name = some name;
    body = some (delete_options opts);
  }

  unfoldable pub delete_collection_request : Bytes → T.DeleteOptions → ListOptions T → Request T
  unfolding timeout_of
  delete_collection_request resource opts list_opts = record (request delete resource) {
    params = some (list_params list_opts);
    timeout = some (timeout_of list_opts);
    body = some (delete_options opts);
  }

  unfoldable pub patch_request :
      Bytes → Bytes → Bytes → Bytes → T.PatchOptions → List Bytes → Request T
  patch_request resource name pt bytes opts sub = record (request (patch pt) resource) {
    name = some name;
    sub_resource = sub;
    params = some (patch_params opts);
    body = some (raw bytes);
  }

  -- `&images{client: …}` and its methods.
  unfoldable pub typed_client : {S : Type 0} → Bytes → RestClient S T → ObjectInterface S T
  unfolding get_request list_request watch_request create_request update_request delete_request
      delete_collection_request patch_request
  typed_client resource client = record {
    create = λ o opts.
        client.into_object (create_request resource o opts) >>= λ result. pure (some result);
    update = λ o opts.
        client.into_object (update_request resource [] o opts) >>= λ result. pure (some result);
    update_status = λ o opts.
        client.into_object (update_request resource (codes "status" ∷ []) o opts) >>= λ result.
        pure (some result);
    delete = λ name opts. client.do_error (delete_request resource name opts);
    delete_collection =
        λ opts list_opts. client.do_error (delete_collection_request resource opts list_opts);
    get = λ name options.
        client.into_object (get_request resource name options) >>= λ result. pure (some result);
    list = λ opts. client.into_list (list_request resource opts) >>= λ result. pure (some result);
    watch = λ opts. client.do_watch (watch_request resource opts);
    patch = λ name pt bytes opts sub.
        client.into_object (patch_request resource name pt bytes opts sub) >>= λ result.
        pure (some result);
  }

  unfoldable pub new_images : {S : Type 0} → RestClient S T → ObjectInterface S T
  unfolding typed_client
  new_images client = typed_client (codes "images") client

  -- registry.go has the same methods, of its own resource.
  unfoldable pub new_registries : {S : Type 0} → RestClient S T → ObjectInterface S T
  unfolding typed_client
  new_registries client = typed_client (codes "registries") client
