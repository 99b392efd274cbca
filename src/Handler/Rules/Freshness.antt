-- ===== src/Handler/Rules/Freshness.antt =====
-- pkg/handler/handler.go: `getImageRules` against the informer's store and callbacks, in every
-- interleaving.
use jitdi.Base.{Option, ℕ, suc, ◌≡◌, refl, inl, inr, none, some, List, ◌++◌, arith, Option-cases}
use jitdi.Config.{Image}
use jitdi.Pattern.Rule.{Rule}
use jitdi.Handler.Select.Sorting.{Sorter}
use jitdi.Handler.Rules.{Handler, rules_of, reset_image_cr, get_image_rules}

-- The handler, what the informer last saw of the cluster, and how many callbacks it has still to make.
pub record Watched : Type 0 where
  pub handler : Handler
  pub seen : Option (List Image)
  pub pending : ℕ

module _ (sorter : Sorter) where
  open sorter use {sort}

  -- The configured rules with those of the resources in the store.
  abbrev pub current_rules : Handler → List Image → List Rule
  current_rules h items = sort (h.image_rules ++ rules_of items)

  -- The informer changes its store and owes a callback; it makes one; a request asks for the rules.
  pub data Step (w : Watched) : Watched → Type 0 where
    store_changed :
        (items : List Image)
        → Step w (record {
          handler = record w.handler { image_store = some items };
          seen = some items;
          pending = suc w.pending;
        })
    callback :
        {n : ℕ}
        → w.pending ≡ suc n
        → Step w (record w { handler = reset_image_cr w.handler; pending = n })
    request : Step w (record w { handler = (get_image_rules sorter w.handler).0 })

  pub data Reach (w : Watched) : Watched → Type 0 where
    here : Reach w w
    next : {u v : Watched} → Reach w u → Step u v → Reach w v

  -- A cache that is filled while no callback is owed is up to date.
  abbrev pub IsFresh : Watched → Type 0
  IsFresh w =
      (cr : List Rule) (items : List Image)
      → w.pending ≡ 0
      → w.handler.image_store ≡ some items
      → w.handler.image_cr ≡ some cr
      → cr ≡ current_rules w.handler items

  Step-IsFresh : {w u : Watched} → Step w u → IsFresh w → IsFresh u
  unfolding reset_image_cr get_image_rules
  Step-IsFresh (store_changed items) f = λ cr its p q r. absurd (omega arith)
  Step-IsFresh (callback e) f = λ cr its p q r. cc
  Step-IsFresh {w} request f = λ cr its p q r. ground (arith, f cr its)

  Reach-IsFresh : {w u : Watched} → IsFresh w → Reach w u → IsFresh u
  Reach-IsFresh f here = f
  Reach-IsFresh f (next r s) = Step-IsFresh s (Reach-IsFresh f r)

  -- The handler's store is the informer's.
  abbrev HasStore : Watched → Type 0
  HasStore w = w.handler.image_store ≡ w.seen

  Step-HasStore : {w u : Watched} → Step w u → HasStore w → HasStore u
  unfolding reset_image_cr get_image_rules
  Step-HasStore (store_changed items) h = refl
  Step-HasStore (callback e) h = h
  Step-HasStore {w} request h = ground (arith, h)

  Reach-HasStore : {w u : Watched} → HasStore w → Reach w u → HasStore u
  Reach-HasStore h here = h
  Reach-HasStore h (next r s) = Step-HasStore s (Reach-HasStore h r)

  -- Started with an empty cache and the informer's store, and whatever changes of the cluster, callbacks
  -- and requests have come in between: once no callback is owed, a request gets the sorted rules of the
  -- configuration and of the resources that the informer saw last.
  pub get_image_rules_fresh :
      (start w : Watched) (items : List Image)
      → start.handler.image_cr ≡ none
      → start.handler.image_store ≡ start.seen
      → Reach start w
      → w.pending ≡ 0
      → w.seen ≡ some items
      → (get_image_rules sorter w.handler).1 ≡ current_rules w.handler items
  unfolding get_image_rules
  get_image_rules_fresh start w items e h r p q =
      let fresh : IsFresh w = Reach-IsFresh (λ cr its a b c. cc) r in
      let stored = Reach-HasStore h r in
      elim (Option-cases w.handler.image_cr) [
        | inl n ↦ ground arith
        | inr (cr, m) ↦ ground (arith, fresh cr items)
      ]
