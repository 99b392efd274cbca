-- ===== src/Handler/Build/Clients.antt =====
-- pkg/handler/handler.go with pkg/storage: the clients that a build talks to the registries with.
use jitdi.Base.{◌≡◌, refl, ap, ◌∙◌, Option, none, some, List, [], ◌∷◌}
use jitdi.Exec.{Result, ok, err, lift, pure, ◌>>=◌}
use jitdi.Exec.Pure
use jitdi.Config.{BaseAuth, Registry}
use jitdi.Container.{Reference, RemotePuller, RemotePusher}
use jitdi.Storage.Clients.{
  Options, Puller, RemoteOption, auth, Change, with_auth, apply_options, new_puller, puller_get,
  puller_layer, remote_of,
}
use jitdi.Storage.Pusher.{new_pusher}
use jitdi.Handler.Rules.{Handler, get_authn, get_registry_rules, with_registry_config, basic_of}
use jitdi.Handler.Rules.Registries.{
  latest, declared_auth, basic_of-declared_auth, lookup-add_registries,
}
use jitdi.Handler.Build.{World, Services, Cache, on_handler, get_puller, get_pusher}

module _ {T : Type 0} where
  -- `NewPuller()` and `NewPusher()`, or with `WithAuth(auth)` where there are credentials.
  unfoldable pub auth_options : Option BaseAuth → List (Change T)
  unfolding with_auth
  auth_options none = []
  auth_options (some a) = with_auth a ∷ []

  -- The options that credentials make.
  abbrev pub credentials : Option BaseAuth → List (RemoteOption T)
  credentials none = []
  credentials (some a) = auth a ∷ []

module _ {T R : Type 0} where
  -- The services with the clients of pkg/storage.
  unfoldable pub with_clients :
      (List (RemoteOption T) → Result (RemotePuller (World R)))
      → (List (RemoteOption T) → Result (RemotePusher (World R)))
      → Services R
      → Services R
  unfolding new_puller puller_get puller_layer remote_of auth_options
  with_clients remote_puller remote_pusher services = record services {
    remote_puller = λ a.
        Pure.◌>>=◌ (new_puller remote_puller (auth_options a))
          λ p. ok (record { layer = puller_layer p; get = puller_get p });
    remote_pusher = λ a. remote_of remote_pusher (auth_options a);
  }

  -- A client that is taken out of its struct.
  rewrapped :
      (o : Options T) (r : Result (RemotePuller (World R)))
      → Pure.◌>>=◌
          (Pure.◌>>=◌ r (λ r'. ok (record { options = o; puller = r' })))
          (λ (p : Puller T (World R)). ok (record { layer = puller_layer p; get = puller_get p }))
        ≡ r
  unfolding puller_layer puller_get
  rewrapped o (ok r) = refl
  rewrapped o (err e) = refl

  remote_puller-credentials :
      (new : List (RemoteOption T) → Result (RemotePuller (World R)))
      (push : List (RemoteOption T) → Result (RemotePusher (World R))) (services : Services R)
      (a : Option BaseAuth)
      → (with_clients new push services).remote_puller a ≡ new (credentials a)
  unfolding with_clients new_puller auth_options with_auth apply_options
  remote_puller-credentials new push services none = rewrapped _ (new [])
  remote_puller-credentials new push services (some a) = rewrapped _ (new (auth a ∷ []))

  remote_pusher-credentials :
      (new : List (RemoteOption T) → Result (RemotePuller (World R)))
      (push : List (RemoteOption T) → Result (RemotePusher (World R))) (services : Services R)
      (a : Option BaseAuth)
      → (with_clients new push services).remote_pusher a ≡ push (credentials a)
  unfolding with_clients remote_of auth_options with_auth apply_options
  remote_pusher-credentials new push services none = refl
  remote_pusher-credentials new push services (some a) = refl

wrapped :
    {R : Type 0} (r : Result (RemotePusher (World R))) (w : World R)
    → ((lift r >>= λ r'. pure (new_pusher r')) w).0 ≡ Pure.◌>>=◌ r λ r'. ok (new_pusher r')
wrapped (ok r) w = refl
wrapped (err e) w = refl

-- With no informer's store of registries, the clients that are made for a reference have exactly the
-- credentials of the last registry that the configuration declares under the name of the reference's
-- host, or none if it declares none.
pub get_puller-get_pusher :
    {T R : Type 0} (new : List (RemoteOption T) → Result (RemotePuller (World R)))
    (push : List (RemoteOption T) → Result (RemotePusher (World R))) (services : Services R)
    (cache : Cache) (ref : Reference) (rs : List Registry) (h : Handler) (w : World R)
    → let s = with_clients new push services in
      let configured = record w {
        handler = with_registry_config rs (record h { registry_store = none });
      } in
      let c = credentials (declared_auth (latest ref.registry rs none)) in
      ((get_puller s cache ref configured).0 ≡ new c)
      × ((get_pusher s cache ref configured).0 ≡ Pure.◌>>=◌ (push c) λ r. ok (new_pusher r))
unfolding get_puller get_pusher on_handler get_authn get_registry_rules with_registry_config
get_puller-get_pusher new push services cache ref rs h w =
    let found =
      ap basic_of (lookup-add_registries ref.registry rs [])
      ∙ basic_of-declared_auth (latest ref.registry rs none) in
    (
      remote_puller-credentials new push services _ ∙ ap (λ c. new (credentials c)) found,
      wrapped _ _
          ∙ ap (λ q. Pure.◌>>=◌ q λ r. ok (new_pusher r))
              (remote_pusher-credentials new push services _
                ∙ ap (λ c. push (credentials c)) found),
    )
