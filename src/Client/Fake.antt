-- ===== src/Client/Fake.antt =====
-- pkg/client/clientset/versioned/typed/apis/v1alpha1/fake: the clients for tests.
use jitdi.Base.{Bool, true, Option, none, some, List, [], ◌∷◌, ◌++◌, Bytes, codes, if◌then◌else◌}
use jitdi.Exec.{Exec, ◌>>=◌, ◌>>◌, pure, nothing}
use jitdi.Client.{ClientTypes, ObjectList, ObjectInterface}

-- The actions of `k8s.io/client-go/testing`, of one resource. Of the options of a list it keeps what
-- selects objects.
pub data Action (T : ClientTypes) : Type 0 where
  get_action : Bytes → Action T
  list_action watch_action delete_collection_action : T.Selection → Action T
  create_action : T.Object → Action T
  update_action : Bytes → T.Object → Action T
  delete_action : Bytes → T.DeleteOptions → Action T
  patch_action : Bytes → Bytes → Bytes → List Bytes → Action T

-- `testing.Fake` with its reactors, and its selectors: `label_of` is the label selector, which may be
-- nil, and `matches` is `label.Matches` of an object's labels.
pub record Fake (S : Type 0) (T : ClientTypes) : Type 1 where
  pub Label : Type 0
  pub label_of : T.Selection → Option Label
  pub matches : Label → T.Object → Bool
  pub invokes_object : Bytes → Action T → Exec S (Option T.Object)
  pub invokes_list : Bytes → Action T → Exec S (Option (ObjectList T))
  pub invokes_watch : Bytes → Action T → Exec S T.Watched

module _ {S : Type 0} {T : ClientTypes} (fake : Fake S T) where
  open fake use {Label, label_of, matches, invokes_object, invokes_list, invokes_watch}

  -- `labels.Everything()` for nil.
  unfoldable pub selects : Option Label → T.Object → Bool
  selects none o = true
  selects (some l) o = matches l o

  -- `for _, item := range …`, which appends to `list.Items`.
  unfoldable pub select : (T.Object → Bool) → List T.Object → List T.Object → List T.Object
  select keep done [] = done
  select keep done (item ∷ items) =
      let more = select keep (done ++ item ∷ []) items in
      let same = select keep done items in if keep item then more else same

  unfoldable pub selected : Option Label → Option (ObjectList T) → Exec S (Option (ObjectList T))
  unfolding selects select
  selected label none = pure none
  selected label (some obj) =
      pure
        (some (record { list_meta = obj.list_meta; items = select (selects label) [] obj.items }))

  -- `&FakeImages{Fake: …}` and its methods; an object that is nil is returned as it is.
  unfoldable pub fake_client : Bytes → ObjectInterface S T
  unfolding selected
  fake_client resource = record {
    create = λ o opts. invokes_object resource (create_action o);
    update = λ o opts. invokes_object resource (update_action [] o);
    update_status = λ o opts. invokes_object resource (update_action (codes "status") o);
    delete = λ name opts. invokes_object resource (delete_action name opts) >> pure nothing;
    delete_collection = λ opts list_opts.
        invokes_list resource (delete_collection_action list_opts.selection) >> pure nothing;
    get = λ name options. invokes_object resource (get_action name);
    list = λ opts.
        invokes_list resource (list_action opts.selection) >>= selected (label_of opts.selection);
    watch = λ opts. invokes_watch resource (watch_action opts.selection);
    patch = λ name pt bytes opts sub. invokes_object resource (patch_action name pt bytes sub);
  }

  unfoldable pub fake_images : ObjectInterface S T
  unfolding fake_client
  fake_images = fake_client (codes "images")

  -- fake_registry.go has the same methods, of its own resource.
  unfoldable pub fake_registries : ObjectInterface S T
  unfolding fake_client
  fake_registries = fake_client (codes "registries")
