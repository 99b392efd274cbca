-- ===== src/Client/Server.antt =====
-- pkg/client/clientset/versioned/typed/apis/v1alpha1: what a server makes of the requests that the typed
-- clients send.
use jitdi.Base.{◌≡◌, Bool, true, Option, none, some, List, [], ◌∷◌, Bytes, bytes_eq, if◌then◌else◌}
use jitdi.Exec.{Exec, not_exist, unexpected_kind, ◌>>=◌, ◌>>◌, pure, raise, nothing}
use jitdi.Client.{
  ClientTypes, ObjectList, Verb, get, post, put, delete, patch, Params, list_params, Body, object,
  delete_options, raw, Request, RestClient,
}
use jitdi.Client.Fake.{
  Action, get_action, list_action, watch_action, delete_collection_action, create_action,
  update_action, delete_action, patch_action, Fake,
}

abbrev pub filter : {A : Type 0} → (A → Bool) → List A → List A
filter keep [] = []
filter keep (o ∷ os) = let rest = filter keep os in if keep o then o ∷ rest else rest

module _ {T : ClientTypes} where
  -- The action that a request asks for by the conventions of the API: `GET` of a name, of a list or of
  -- changes to it, and so on. A `PUT` under another name than the object's asks for none.
  abbrev pub action_of :
      Verb → Option Bytes → List Bytes → Option (Params T) → Option (Body T) → Option (Action T)
  action_of get (some n) [] p none = some (get_action n)
  action_of get none [] (some (list_params o)) none =
      some (if o.watch then watch_action o.selection else list_action o.selection)
  action_of post none [] p (some (object o)) = some (create_action o)
  action_of put (some n) [] p (some (object o)) =
      if bytes_eq n (T.name_of o) then some (update_action [] o) else none
  action_of put (some n) (s ∷ []) p (some (object o)) =
      if bytes_eq n (T.name_of o) then some (update_action s o) else none
  action_of delete (some n) [] p (some (delete_options d)) = some (delete_action n d)
  action_of delete none [] (some (list_params o)) (some (delete_options d)) =
      some (delete_collection_action o.selection)
  action_of (patch pt) (some n) sub p (some (raw b)) = some (patch_action n pt b sub)
  action_of _ _ _ _ _ = none

  abbrev pub meaning : Request T → Option (Action T)
  meaning r = action_of r.verb r.name r.sub_resource r.params r.body

  module _ {S : Type 0} (fake : Fake S T) where
    open fake use {invokes_object, invokes_list, invokes_watch, label_of}

    abbrev pub there : {A : Type 0} → Option A → Exec S A
    there none = raise not_exist
    there (some a) = pure a

    -- Without a selector every object is selected, with one those that match it.
    abbrev pub is_selected : Option fake.Label → T.Object → Bool
    is_selected none o = true
    is_selected (some l) o = fake.matches l o

    abbrev pub matching : Option (Params T) → ObjectList T → Exec S (ObjectList T)
    matching (some (list_params o)) l =
        pure (record l { items = filter (is_selected (label_of o.selection)) l.items })
    matching _ l = raise unexpected_kind

    abbrev pub on_object : Bytes → Option (Action T) → Exec S T.Object
    on_object resource none = raise unexpected_kind
    on_object resource (some a) = invokes_object resource a >>= there

    abbrev pub on_list : Bytes → Option (Params T) → Option (Action T) → Exec S (ObjectList T)
    on_list resource p none = raise unexpected_kind
    on_list resource p (some a) = (invokes_list resource a >>= there) >>= matching p

    abbrev pub on_delete : Bytes → Option (Action T) → Exec S (Unit {0})
    on_delete resource none = raise unexpected_kind
    on_delete resource (some (delete_collection_action s)) =
        invokes_list resource (delete_collection_action s) >> pure nothing
    on_delete resource (some a) = invokes_object resource a >> pure nothing

    abbrev pub on_watch : Bytes → Option (Action T) → Exec S T.Watched
    on_watch resource none = raise unexpected_kind
    on_watch resource (some a) = invokes_watch resource a

    -- A server that answers each request by the action that it asks for, and a list by the objects that
    -- the options select.
    abbrev pub server : RestClient S T
    server = record {
      into_object = λ r. on_object r.resource (meaning r);
      into_list = λ r. on_list r.resource r.params (meaning r);
      do_error = λ r. on_delete r.resource (meaning r);
      do_watch = λ r. on_watch r.resource (meaning r);
    }

    -- A server that takes each request for the action that the conventions of the API make of it, and
    -- answers what the reactors answer to that action, with the objects of a list that the request's
    -- options select.
    pub record Follows (rest : RestClient S T) : Type 0 where
      pub objects :
          (r : Request T) (s : S) → rest.into_object r s ≡ on_object r.resource (meaning r) s
      pub lists :
          (r : Request T) (s : S) → rest.into_list r s ≡ on_list r.resource r.params (meaning r) s
      pub deletes : (r : Request T) (s : S) → rest.do_error r s ≡ on_delete r.resource (meaning r) s
      pub watches : (r : Request T) (s : S) → rest.do_watch r s ≡ on_watch r.resource (meaning r) s
