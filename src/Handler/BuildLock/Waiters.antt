-- ===== src/Handler/BuildLock/Waiters.antt =====
-- pkg/handler/handler.go: what a request learns that finds a mutex in the map.
use jitdi.Base.{
  ℕ, suc, ◌+◌, ◌-◌, ◌≡◌, Bool, true, false, some, Bytes, arith, lookup, subst, sym, Option-cases,
  inl, inr,
}
use jitdi.Handler.BuildLock.{
  Phase, called, stored, waiting, reading, returned, Builds, update, enter, Step, call,
  load_or_store_mutex, lock, delete_mutex, unlock, r_lock, r_unlock, Reach, here, next,
}

-- A phase of a request that found a mutex, up to its return without an error.
abbrev pub IsWaiter : Phase → Type 0
IsWaiter (waiting m) = Unit
IsWaiter (reading m) = Unit
IsWaiter (returned b) = b ≡ true
IsWaiter _ = ⊥

enter-IsWaiter :
    (s : Builds) (t v : ℕ) (ref : Bytes)
    → s.phase v ≡ called ref
    → IsWaiter (s.phase t)
    → IsWaiter ((enter v ref s).phase t)
unfolding enter
enter-IsWaiter s t v ref e w = elim (Option-cases (lookup ref s.build_mutex)) [
  | inl h ↦ rw h (ground arith)
  | inr (m, h) ↦ rw h (ground arith)
]

Step-IsWaiter : {s u : Builds} (t : ℕ) → Step s u → IsWaiter (s.phase t) → IsWaiter (u.phase t)
Step-IsWaiter {s} t (call v ref e) w = ground arith
Step-IsWaiter {s} t (load_or_store_mutex v ref e) w = enter-IsWaiter s t v ref e w
Step-IsWaiter {s} t (lock v ref m e f h) w = ground arith
Step-IsWaiter {s} t (delete_mutex v ref m b e) w = ground arith
Step-IsWaiter {s} t (unlock v m b e) w = ground arith
Step-IsWaiter {s} t (r_lock v m e f) w = ground arith
Step-IsWaiter {s} t (r_unlock v m e) w = ground arith

Reach-IsWaiter : {s u : Builds} (t : ℕ) → IsWaiter (s.phase t) → Reach s u → IsWaiter (u.phase t)
Reach-IsWaiter t w here = w
Reach-IsWaiter t w (next r st) = Step-IsWaiter t st (Reach-IsWaiter t w r)

-- A request that waits for the build of another one never returns an error, whether that build failed or not.
waiter_returns :
    (s u : Builds) (t m : ℕ) (b : Bool)
    → s.phase t ≡ waiting m
    → Reach s u
    → u.phase t ≡ returned b
    → b ≡ true
waiter_returns s u t m b e r f = subst IsWaiter f (Reach-IsWaiter t (subst IsWaiter (sym e) tt) r)

-- The state in which the request `v` has come and gone.
abbrev passed : Builds → ℕ → ℕ → Builds
passed s v m = record s {
  next_mutex = suc s.next_mutex;
  readers =
      update (update s.readers m (s.readers m + 1)) m (update s.readers m (s.readers m + 1) m - 1);
  phase = update (update (update s.phase v (waiting m)) v (reading m)) v (returned true);
}

enter_found :
    (s : Builds) (v : ℕ) (ref : Bytes) (m : ℕ)
    → lookup ref s.build_mutex ≡ some m
    → enter v ref s
      ≡ record s { next_mutex = suc s.next_mutex; phase = update s.phase v (waiting m) }
unfolding enter
enter_found s v ref m h = rw h

Reach-passed :
    (s : Builds) (v : ℕ) (ref : Bytes) (m : ℕ)
    → s.phase v ≡ called ref
    → lookup ref s.build_mutex ≡ some m
    → s.writer m ≡ false
    → Reach s (passed s v m)
Reach-passed s v ref m e h free =
    next
      (next (next here (subst (Step s) (enter_found s v ref m h) (load_or_store_mutex v ref e)))
        (r_lock v m (ground arith) free))
      (r_unlock v m (ground arith))

-- While a request has stored its mutex and not locked it yet, another one for the same reference can
-- run to its end and return without an error, though nothing has been built.
pub waiter_may_return_early :
    (s : Builds) (t v : ℕ) (ref : Bytes) (m : ℕ)
    → s.phase t ≡ stored ref m
    → s.phase v ≡ called ref
    → lookup ref s.build_mutex ≡ some m
    → s.writer m ≡ false
    → (u : Builds) × Reach s u × (u.phase v ≡ returned true) × (u.phase t ≡ stored ref m)
waiter_may_return_early s t v ref m e f h free =
    (passed s v m, Reach-passed s v ref m f h free, ground arith, ground arith)
