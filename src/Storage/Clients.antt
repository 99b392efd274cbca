-- ===== src/Storage/Clients.antt =====
-- pkg/storage/options.go and pkg/storage/puller.go, with `NewPusher` of pkg/storage/pusher.go: the clients
-- of a registry and the options that they are made with.
use jitdi.Base.{List, [], ◌∷◌, ◌++◌, Bytes}
use jitdi.Exec.{Exec, Result, ok}
use jitdi.Exec.Pure.{◌>>=◌}
use jitdi.Config.{BaseAuth}
use jitdi.Container.{Reference, Described, RemoteLayer, RemotePuller, RemotePusher}

-- `remote.Option` as the program makes it; a transport is a value of `T`.
pub data RemoteOption (T : Type 0) : Type 0 where
  auth : BaseAuth → RemoteOption T
  transport : T → RemoteOption T
  user_agent : Bytes → RemoteOption T

-- The struct `options`, and the functions that change it.
pub record Options (T : Type 0) : Type 0 where
  pub opts : List (RemoteOption T)

abbrev pub Change : Type 0 → Type 0
Change T = Options T → Result (Options T)

module _ {T : Type 0} where
  unfoldable pub with_auth : BaseAuth → Change T
  with_auth a o = ok (record { opts = o.opts ++ auth a ∷ [] })

  unfoldable pub with_transport : T → Change T
  with_transport t o = ok (record { opts = o.opts ++ transport t ∷ [] })

  unfoldable pub with_user_agent : Bytes → Change T
  with_user_agent ua o = ok (record { opts = o.opts ++ user_agent ua ∷ [] })

  -- The loop of `NewPuller` and of `NewPusher`.
  unfoldable pub apply_options : List (Change T) → Options T → Result (Options T)
  apply_options [] o = ok o
  apply_options (opt ∷ opts) o = do o' ← opt o; apply_options opts o'

-- The struct `Puller`
pub record Puller (T S : Type 0) : Type 0 where
  pub options : Options T
  pub puller : RemotePuller S

module _ {T S : Type 0} where
  -- `remote_new` is `remote.NewPuller`.
  unfoldable pub new_puller :
      (List (RemoteOption T) → Result (RemotePuller S)) → List (Change T) → Result (Puller T S)
  unfolding apply_options
  new_puller remote_new opts = do
    o ← apply_options opts (record { opts = [] })
    r ← remote_new o.opts
    ok (record { options = o; puller = r })

  unfoldable pub puller_get : Puller T S → Reference → Exec S Described
  puller_get p ref = p.puller.get ref

  unfoldable pub puller_layer : Puller T S → Reference → Exec S RemoteLayer
  puller_layer p ref = p.puller.layer ref

  -- What `NewPusher` wraps; `remote_new` is `remote.NewPusher`.
  unfoldable pub remote_of :
      (List (RemoteOption T) → Result (RemotePusher S)) → List (Change T) → Result (RemotePusher S)
  unfolding apply_options
  remote_of remote_new opts = do o ← apply_options opts (record { opts = [] }); remote_new o.opts
