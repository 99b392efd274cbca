-- ===== src/Handler/Tests/Clients.antt =====
-- pkg/handler and pkg/storage: the clients for a host with credentials.
use jitdi.Base.{ℕ, ◌≡◌, true, none, some, List, [], ◌∷◌, codes, length, bytes_eq}
use jitdi.Exec.{Result, ok, err, failed}
use jitdi.Config.{Registry}
use jitdi.Container.{RemotePuller, RemotePusher}
use jitdi.Storage.Clients.{RemoteOption, auth}
use jitdi.Handler.Rules.{empty_handler, with_registry_config}
use jitdi.Handler.Build.{get_puller, get_pusher}
use jitdi.Handler.Build.Clients.{with_clients, get_puller-get_pusher}
use jitdi.Handler.Tests.Images.{W, services, cache, world, a_reference}

abbrev private_registry : Registry
private_registry = record {
  name = codes "r";
  spec = record {
    endpoint = codes "r";
    insecure = true;
    authentication =
        some (record { base_auth = some (record { username = codes "u"; password = codes "p" }) });
  };
}

-- The number of the error tells how many options the client was made with.
abbrev pull_client : List (RemoteOption ℕ) → Result (RemotePuller W)
pull_client opts = ok (record {
  layer = λ ref w. (err (failed (length opts)), w);
  get = λ ref w. (err (failed (length opts)), w);
})

abbrev push_client : List (RemoteOption ℕ) → Result (RemotePusher W)
push_client opts = err (failed (length opts))

get_puller-get_pusher_example :
    let s = with_clients pull_client push_client services in
    let configured = record world {
      handler =
          with_registry_config
            (private_registry ∷ [])
            (record empty_handler { registry_store = none });
    } in
    ((get_puller s cache a_reference configured).0
      ≡ pull_client (auth (record { username = codes "u"; password = codes "p" }) ∷ []))
    × ((get_pusher s cache a_reference configured).0 ≡ err (failed 1))
unfolding bytes_eq
get_puller-get_pusher_example =
    get_puller-get_pusher pull_client push_client services cache a_reference (private_registry ∷ [])
      empty_handler world
