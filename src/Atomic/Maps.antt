-- ===== src/Atomic/Maps.antt =====
-- pkg/atomic/maps.go: `SyncMap`, each method over the state of the `sync.Map` inside it, which is the
-- list of its entries. `zero` is the zero value of the type of values.
pub mod Laws
use jitdi.Base.{
  ℕ, ◌+◌, Bool, true, false, Option, none, some, List, [], ◌∷◌, ◌++◌, Bytes, lookup, insert, remove,
  length,
}

abbrev pub SyncMap {ℓ} : Type ℓ → Type ℓ
SyncMap V = List (Bytes × V)

-- The entries in the order in which one call visits them.
abbrev pub Visited {ℓ} : Type ℓ → Type ℓ
Visited V = List (Bytes × V)

module _ {ℓ} {V : Type ℓ} where
  -- The values that `sync.Map` hands out, with whether the key was there.
  abbrev or_value : Option V → V → V × Bool
  or_value none value = (value, false)
  or_value (some v) value = (v, true)

  unfoldable pub load : V → Bytes → SyncMap V → V × Bool
  unfolding lookup
  load zero key m = or_value (lookup key m) zero

  unfoldable pub store : Bytes → V → SyncMap V → SyncMap V
  unfolding insert
  store key value m = insert key value m

  unfoldable pub delete : Bytes → SyncMap V → SyncMap V
  unfolding remove
  delete key m = remove key m

  unfoldable pub load_and_delete : V → Bytes → SyncMap V → (V × Bool) × SyncMap V
  unfolding lookup remove
  load_and_delete zero key m = (or_value (lookup key m) zero, remove key m)

  -- `sync.Map.LoadOrStore` stores the value only if the key is not there.
  stored_unless : Option V → Bytes → V → SyncMap V → SyncMap V
  stored_unless none key value m = insert key value m
  stored_unless (some v) key value m = m

  unfoldable pub load_or_store : Bytes → V → SyncMap V → (V × Bool) × SyncMap V
  unfolding lookup insert stored_unless
  load_or_store key value m =
      (or_value (lookup key m) value, stored_unless (lookup key m) key value m)

  unfoldable pub swap : Bytes → V → SyncMap V → (V × Bool) × SyncMap V
  unfolding lookup insert
  swap key value m = (or_value (lookup key m) value, insert key value m)

  -- `Range` over the entries in the order in which the call visits them, which `sync.Map` leaves open
  -- and may change from call to call, with a function that goes on as long as it returns true, over a
  -- state of its own.
  unfoldable pub range {κ} : {S : Type κ} → (Bytes → V → S → S × Bool) → Visited V → S → S
  range f [] s = s
  range f ((k, v) ∷ m) s =
      let (s', more) = f k v s in let rest = range f m s' in elim more [ true ↦ rest | false ↦ s' ]

  unfoldable pub size : Visited V → ℕ
  unfolding range
  size m = range (λ k v n. (n + 1, true)) m 0

  unfoldable pub keys : Visited V → List Bytes
  unfolding range
  keys m = range (λ k v ks. (ks ++ k ∷ [], true)) m []

  unfoldable pub values : Visited V → List V
  unfolding range
  values m = range (λ k v vs. (vs ++ v ∷ [], true)) m []

  unfoldable pub is_empty : Visited V → Bool
  unfolding range
  is_empty m = range (λ k v e. (false, false)) m true
