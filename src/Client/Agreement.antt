-- ===== src/Client/Agreement.antt =====
-- pkg/client/clientset/versioned/typed/apis/v1alpha1: the typed clients and those for tests do the same.
use jitdi.Base.{
  ◌≡◌, ◌≢◌, refl, sym, ap, ◌∙◌, Bool, false, Option, none, some, List, [], ◌∷◌, ◌++◌, append-nil,
  append_assoc, Bool-cases, inl, inr, Bytes, codes, All, bytes_eq_refl,
}
use jitdi.Exec.{Exec, Result, ok, err, continue, pure}
use jitdi.Client.{
  ClientTypes, ListOptions, ObjectList, ObjectInterface, list_params, RestClient, typed_client,
  get_request, list_request, watch_request, create_request, update_request, delete_request,
  delete_collection_request, patch_request,
}
use jitdi.Client.Fake.{
  Action, get_action, list_action, create_action, update_action, patch_action, Fake, selects,
  select, selected, fake_client,
}
use jitdi.Client.Server.{filter, is_selected, there, matching, server, Follows}

module _ {T : ClientTypes} where
  module _ {S : Type 0} (fake : Fake S T) where
    open fake use {invokes_object, invokes_list, invokes_watch, label_of}

    is_selected-selects :
        (label : Option fake.Label) (o : T.Object) → selects fake label o ≡ is_selected fake label o
    unfolding selects
    is_selected-selects none o = refl
    is_selected-selects (some l) o = refl

    select-filter :
        (keep : T.Object → Bool) (done items : List T.Object)
        → select fake keep done items ≡ done ++ filter keep items
    unfolding select
    select-filter keep done [] = sym (append-nil done)
    select-filter keep done (o ∷ os) = elim (Bool-cases (keep o)) [
      | inl e ↦ rw e (select-filter keep (done ++ o ∷ []) os ∙ append_assoc done (o ∷ []) _)
      | inr e ↦ rw e (select-filter keep done os)
    ]

    some_there :
        {A : Type 0}
        → (r : Result (Option A) × S) → r.0 ≢ ok none
        → continue (λ a. pure (some a)) (continue (there fake) r) ≡ r
    some_there (ok none, s) h = absurd (h refl)
    some_there (ok (some a), s) h = refl
    some_there (err e, s) h = refl

    matching_there :
        (opts : ListOptions T) (r : Result (Option (ObjectList T)) × S)
        → r.0 ≢ ok none
        → continue
            (λ a. pure (some a))
            (continue (matching fake (some (list_params opts))) (continue (there fake) r))
          ≡ continue (selected fake (label_of opts.selection)) r
    unfolding selected
    matching_there opts (ok none, s) h = absurd (h refl)
    matching_there opts (ok (some l), s) h =
        ap (λ items. (ok (some (record { list_meta = l.list_meta; items = items })), s))
          (sym (
            select-filter (selects fake (label_of opts.selection)) [] l.items
            ∙ ap (λ (keep : T.Object → Bool). filter keep l.items)
                (λ i o. is_selected-selects (label_of opts.selection) o i)))
    matching_there opts (err e, s) h = refl

    -- A call of one of the methods.
    pub data Call : Type 0 where
      creates : T.Object → T.CreateOptions → Call
      updates updates_status : T.Object → T.UpdateOptions → Call
      deletes : Bytes → T.DeleteOptions → Call
      deletes_collection : T.DeleteOptions → ListOptions T → Call
      gets : Bytes → T.GetOptions → Call
      lists watches : ListOptions T → Call
      patches : Bytes → Bytes → Bytes → T.PatchOptions → List Bytes → Call

    pub data Out : Type 0 where
      an_object : Option T.Object → Out
      a_list : Option (ObjectList T) → Out
      a_watch : T.Watched → Out
      no_value : Unit {0} → Out

    abbrev to_out : {A : Type 0} → (A → Out) → Result A × S → Result Out × S
    to_out f (ok a, s) = (ok (f a), s)
    to_out f (err e, s) = (err e, s)

    abbrev pub perform : ObjectInterface S T → Call → Exec S Out
    perform c (creates o opts) s = to_out an_object (c.create o opts s)
    perform c (updates o opts) s = to_out an_object (c.update o opts s)
    perform c (updates_status o opts) s = to_out an_object (c.update_status o opts s)
    perform c (deletes name opts) s = to_out no_value (c.delete name opts s)
    perform c (deletes_collection opts list_opts) s =
        to_out no_value (c.delete_collection opts list_opts s)
    perform c (gets name opts) s = to_out an_object (c.get name opts s)
    perform c (lists opts) s = to_out a_list (c.list opts s)
    perform c (watches opts) s = to_out a_watch (c.watch opts s)
    perform c (patches name pt bytes opts sub) s =
        to_out an_object (c.patch name pt bytes opts sub s)

    -- What the calls return, one after another.
    abbrev pub answers : ObjectInterface S T → List Call → S → List (Result Out)
    answers c [] s = []
    answers c (call ∷ calls) s = let r = perform c call s in r.0 ∷ answers c calls r.1

    -- No reactor answers nil without an error.
    pub record NeverNil : Type 0 where
      pub objects :
          (resource : Bytes) (a : Action T) (s : S) → (invokes_object resource a s).0 ≢ ok none
      pub lists :
          (resource : Bytes) (a : Action T) (s : S) → (invokes_list resource a s).0 ≢ ok none

    -- A list is not asked for as a watch.
    abbrev pub IsPlain : Call → Type 0
    IsPlain (lists opts) = opts.watch ≡ false
    IsPlain _ = Unit

    perform_agrees :
        (resource : Bytes)
        → NeverNil
        → (call : Call) (s : S) → IsPlain call
        → perform (typed_client resource (server fake)) call s
          ≡ perform (fake_client fake resource) call s
    unfolding typed_client fake_client get_request list_request watch_request create_request
        update_request delete_request delete_collection_request patch_request
    perform_agrees resource never (creates o opts) s plain = ap (to_out an_object) (
        some_there (invokes_object resource (create_action o) s)
          (never.objects resource (create_action o) s))
    perform_agrees resource never (updates o opts) s plain = rw (bytes_eq_refl (T.name_of o)) (
        ap (to_out an_object) (
          some_there (invokes_object resource (update_action [] o) s)
            (never.objects resource (update_action [] o) s)))
    perform_agrees resource never (updates_status o opts) s plain =
        rw (bytes_eq_refl (T.name_of o)) (
          ap (to_out an_object) (
            some_there (invokes_object resource (update_action (codes "status") o) s)
              (never.objects resource (update_action (codes "status") o) s)))
    perform_agrees resource never (deletes name opts) s plain = refl
    perform_agrees resource never (deletes_collection opts list_opts) s plain = refl
    perform_agrees resource never (gets name opts) s plain = ap (to_out an_object) (
        some_there (invokes_object resource (get_action name) s)
          (never.objects resource (get_action name) s))
    perform_agrees resource never (lists opts) s plain = rw plain (
        ap (to_out a_list) (
          matching_there opts (invokes_list resource (list_action opts.selection) s)
            (never.lists resource (list_action opts.selection) s)))
    perform_agrees resource never (watches opts) s plain = refl
    perform_agrees resource never (patches name pt bytes opts sub) s plain = ap (to_out an_object) (
        some_there (invokes_object resource (patch_action name pt bytes sub) s)
          (never.objects resource (patch_action name pt bytes sub) s))

    answers_agree_server :
        (resource : Bytes) (calls : List Call) (s : S)
        → NeverNil
        → All IsPlain calls
        → answers (typed_client resource (server fake)) calls s
          ≡ answers (fake_client fake resource) calls s
    answers_agree_server resource [] s never plain = refl
    answers_agree_server resource (call ∷ calls) s never (p, plain) =
        let same = perform_agrees resource never call s p in
        ap (λ (r : Result Out × S). r.0 ∷ answers (typed_client resource (server fake)) calls r.1)
          same
        ∙ ap (λ rest. (perform (fake_client fake resource) call s).0 ∷ rest)
            (answers_agree_server resource calls (perform (fake_client fake resource) call s).1
              never plain)

    -- Where no reactor of the client for tests answers nil without an error: against any server that
    -- takes each request for the action that the conventions of the API make of it, and that answers as
    -- the reactors do, with the objects of a list that its options select, the typed client returns the
    -- same as the client for tests, whatever methods are called in turn, if no list is asked for as a
    -- watch.
    pub answers_agree :
        (rest : RestClient S T) (resource : Bytes) (calls : List Call) (s : S)
        → Follows fake rest
        → NeverNil
        → All IsPlain calls
        → answers (typed_client resource rest) calls s ≡ answers (fake_client fake resource) calls s
    answers_agree rest resource calls s follows never plain =
        let same : rest ≡ server fake = λ i. record {
          into_object = λ r s. follows.objects r s i;
          into_list = λ r s. follows.lists r s i;
          do_error = λ r s. follows.deletes r s i;
          do_watch = λ r s. follows.watches r s i;
        } in
        ap (λ rest. answers (typed_client resource rest) calls s) same
        ∙ answers_agree_server resource calls s never plain
