-- ===== src/Atomic/Maps/Laws.antt =====
-- pkg/atomic/maps.go: what the methods of `SyncMap` return and leave behind.
use jitdi.Base.{
  ℕ, ◌+◌, ◌≡◌, refl, ap, ◌∙◌, true, false, some, List, [], ◌∷◌, ◌++◌, append_assoc, append-nil,
  arith, Bytes, bytes_eq, bytes_eq_iff, Bool-cases, sym, lookup, lookup-insert, lookup-remove, map,
  suc, ◌==◌, length, if◌then◌else◌, Option-cases, inl, inr,
}
use jitdi.Atomic.Maps.{
  SyncMap, load, load_and_delete, load_or_store, range, size, keys, values, is_empty,
}

module _ {ℓ κ} {A : Type ℓ} {B : Type κ} where
  abbrev pub zip : List A → List B → List (A × B)
  zip (a ∷ as_) (b ∷ bs) = (a, b) ∷ zip as_ bs
  zip _ _ = []

  zip-map : (m : List (A × B)) → zip (map (λ e. e.0) m) (map (λ e. e.1) m) ≡ m
  zip-map [] = refl
  zip-map (e ∷ m) = ap (λ t. e ∷ t) (zip-map m)

module _ {ℓ κ} {A : Type ℓ} {B : Type κ} where
  length-map : (f : A → B) (xs : List A) → length (map f xs) ≡ length xs
  length-map f [] = refl
  length-map f (x ∷ xs) = ap suc (length-map f xs)

module _ {ℓ} {V : Type ℓ} where
  lookup_there :
      (k j : Bytes) (w : V) (m : SyncMap V)
      → lookup k m ≡ some w
      → lookup j m ≡ (if bytes_eq k j then some w else lookup j m)
  lookup_there k j w m e = elim (Bool-cases (bytes_eq k j)) [
    | inl t ↦ rw t (ap (λ (x : Bytes). lookup x m) (sym ((bytes_eq_iff k j).0 t)) ∙ e)
    | inr n ↦ rw n refl
  ]

  -- `LoadOrStore` says whether the key was there before; after it the key has the value that it
  -- returns, and every other key what it had.
  load_or_store_lem :
      (k j : Bytes) (v : V) (m : SyncMap V)
      → ((load_or_store k v m).0.1 ≡ (load v k m).1)
        × (lookup j (load_or_store k v m).1
            ≡ (if bytes_eq k j then some (load_or_store k v m).0.0 else lookup j m))
  unfolding load_or_store load
  load_or_store_lem k j v m = elim (Option-cases (lookup k m)) [
    | inl e ↦ rw e (refl, lookup-insert k j v m)
    | inr (w, e) ↦ rw e (refl, lookup_there k j w m e)
  ]

  -- `LoadAndDelete` returns what the key had and leaves it without a value; no other key changes.
  load_and_delete_lem :
      (zero : V) (k j : Bytes) (m : SyncMap V)
      → ((load_and_delete zero k m).0 ≡ load zero k m)
        × (load zero j (load_and_delete zero k m).1
            ≡ (if bytes_eq k j then (zero, false) else load zero j m))
  unfolding load_and_delete load
  load_and_delete_lem zero k j m = (refl, ground (arith, lookup-remove k j m))

  range_size : (m : SyncMap V) (n : ℕ) → range (λ k v n. (n + 1, true)) m n ≡ n + length m
  unfolding range
  range_size [] n = omega arith
  range_size (e ∷ m) n = omega (arith, range_size m (n + 1))

  range_keys :
      (m : SyncMap V) (ks : List Bytes)
      → range (λ k v ks. (ks ++ k ∷ [], true)) m ks ≡ ks ++ map (λ e. e.0) m
  unfolding range
  range_keys [] ks = cc (append-nil ks)
  range_keys ((k, v) ∷ m) ks = range_keys m (ks ++ k ∷ []) ∙ append_assoc ks (k ∷ []) _

  range_values :
      (m : SyncMap V) (vs : List V)
      → range (λ k v vs. (vs ++ v ∷ [], true)) m vs ≡ vs ++ map (λ e. e.1) m
  unfolding range
  range_values [] vs = cc (append-nil vs)
  range_values ((k, v) ∷ m) vs = range_values m (vs ++ v ∷ []) ∙ append_assoc vs (v ∷ []) _

  is_empty-size : (m : SyncMap V) → is_empty m ≡ (size m == 0)
  unfolding is_empty size range
  is_empty-size [] = refl
  is_empty-size (e ∷ m) = ground (arith, range_size m 1)

  -- For one order of the entries, `Keys` and `Values` list each once and `Size` counts them; `IsEmpty`
  -- says whether that is none.
  entries-size :
      (m : SyncMap V)
      → (zip (keys m) (values m) ≡ m)
        × (length (keys m) ≡ size m)
        × (length (values m) ≡ size m)
        × (is_empty m ≡ (size m == 0))
  unfolding keys values size
  entries-size m = (
    rw (range_keys m [], range_values m []) (zip-map m),
    rw (range_keys m [], range_size m 0) (length-map (λ e. e.0) m ∙ omega arith),
    rw (range_values m [], range_size m 0) (length-map (λ e. e.1) m ∙ omega arith),
    is_empty-size m,
  )
