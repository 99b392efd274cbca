-- ===== src/Client/Tests.antt =====
-- pkg/client: the typed client and the one for tests on a small store.
use jitdi.Base.{
  ◌≡◌, ◌≢◌, refl, true, false, Option, none, some, List, [], ◌∷◌, ◌++◌, Bytes, codes, bytes_eq,
}
use jitdi.Exec.{Exec, Result, ok, err, not_exist, pure}
use jitdi.Client.{ClientTypes, ListOptions, typed_client}
use jitdi.Client.Fake.{Action, create_action, get_action, Fake, fake_client}
use jitdi.Client.Server.{server, Follows}
use jitdi.Client.Agreement.{
  Call, creates, gets, lists, updates_status, NeverNil, answers, answers_agree,
}

-- An object is its name; a selector is a name.
abbrev types : ClientTypes
types = record {
  Object = Bytes;
  name_of = λ o. o;
  ListMeta = Bytes;
  Watched = Bytes;
  GetOptions = Bytes;
  Selection = Option Bytes;
  CreateOptions = Bytes;
  UpdateOptions = Bytes;
  DeleteOptions = Bytes;
  PatchOptions = Bytes;
}

abbrev Store : Type 0
Store = List Bytes

abbrev held : List Bytes → Bytes → Result (Option Bytes)
held [] n = err not_exist
held (o ∷ os) n = elim (bytes_eq o n) [ true ↦ ok (some o) | false ↦ held os n ]

abbrev react : Action types → Exec Store (Option Bytes)
react (create_action o) s = (ok (some o), s ++ o ∷ [])
react (get_action n) s = (held s n, s)
react a s = (err not_exist, s)

abbrev fake : Fake Store types
fake = record {
  Label = Bytes;
  label_of = λ selection. selection;
  matches = bytes_eq;
  invokes_object = λ resource. react;
  invokes_list = λ resource a s. (ok (some (record { list_meta = []; items = s })), s);
  invokes_watch = λ resource a. pure [];
}

held-ne-nil : (s : Store) (n : Bytes) → held s n ≢ ok none
held-ne-nil [] n = λ e. cc
held-ne-nil (o ∷ os) n =
    elim (bytes_eq o n)
      as (λ b.
        elim b as (λ b. Result (Option Bytes)) [ true ↦ ok (some o) | false ↦ held os n ]
        ≢ ok none) [ true ↦ λ e. cc | false ↦ held-ne-nil os n ]

react-ne-nil : (a : Action types) (s : Store) → (react a s).0 ≢ ok none
react-ne-nil (create_action o) s = λ e. cc
react-ne-nil (get_action n) s = held-ne-nil s n
react-ne-nil _ s = λ e. cc

fake-NeverNil : NeverNil fake
fake-NeverNil = record { objects = λ resource a s. react-ne-nil a s; lists = λ resource a s e. cc }

abbrev everything : ListOptions types
everything = record { timeout_seconds = some 5; watch = false; selection = some (codes "a") }

abbrev calls : List (Call fake)
calls =
    creates (codes "a") []
    ∷ creates (codes "b") []
    ∷ gets (codes "b") []
    ∷ lists everything
    ∷ updates_status (codes "a") []
    ∷ []

-- A server over the same store.
store-Follows : Follows fake (server fake)
store-Follows = record {
  objects = λ r s. refl;
  lists = λ r s. refl;
  deletes = λ r s. refl;
  watches = λ r s. refl;
}

answers_agree_example :
    answers fake (typed_client (codes "images") (server fake)) calls []
    ≡ answers fake (fake_client fake (codes "images")) calls []
answers_agree_example =
    answers_agree fake (server fake) (codes "images") calls [] store-Follows fake-NeverNil
      (tt, (tt, (tt, (refl, (tt, tt)))))
