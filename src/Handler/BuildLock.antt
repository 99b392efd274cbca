-- ===== src/Handler/BuildLock.antt =====
-- pkg/handler/handler.go: how `buildAndSave` guards a build with `buildMutex`, for any number of
-- requests that run at once. The build itself is one phase here; what it does is in another module.
pub mod Exclusion
pub mod Waiters
pub mod Refinement
use jitdi.Base.{
  ℕ, zero, suc, ◌+◌, ◌-◌, ◌≡◌, Bool, true, false, Option, none, some, List, Bytes, ◌==◌,
  if◌then◌else◌,
}
use jitdi.Atomic.Maps.{SyncMap, load_or_store, delete}

-- Where a request stands in `buildAndSave`. A mutex is known by its number.
pub data Phase : Type 0 where
  idle : Phase
  called : Bytes → Phase
  stored : Bytes → ℕ → Phase
  building : Bytes → ℕ → Phase
  deleted : ℕ → Bool → Phase
  waiting : ℕ → Phase
  reading : ℕ → Phase
  returned : Bool → Phase

-- The map of mutexes, the number of the next `&sync.RWMutex{}`, the mutexes' holders, the requests.
pub record Builds : Type 0 where
  pub build_mutex : SyncMap ℕ
  pub next_mutex : ℕ
  pub writer : ℕ → Bool
  pub readers : ℕ → ℕ
  pub phase : ℕ → Phase

abbrev pub update {ℓ} : {A : Type ℓ} → (ℕ → A) → ℕ → A → ℕ → A
update f i a j = if i == j then a else f j

-- `LoadOrStore(ref, &sync.RWMutex{})` for the request `t`.
entered : ℕ → Bytes → Builds → (ℕ × Bool) × SyncMap ℕ → Builds
entered t ref s ((m, true), entries) = record s {
  build_mutex = entries;
  next_mutex = suc s.next_mutex;
  phase = update s.phase t (waiting m);
}
entered t ref s ((m, false), entries) = record s {
  build_mutex = entries;
  next_mutex = suc s.next_mutex;
  phase = update s.phase t (stored ref m);
}

unfoldable pub enter : ℕ → Bytes → Builds → Builds
unfolding entered load_or_store
enter t ref s = entered t ref s (load_or_store ref s.next_mutex s.build_mutex)

-- The steps of one request, each at one access of the map or of a mutex. A build ends with or without
-- an error; the deferred function deletes the entry and unlocks.
pub data Step (s : Builds) : Builds → Type 0 where
  call :
      (t : ℕ) (ref : Bytes)
      → s.phase t ≡ idle
      → Step s (record s { phase = update s.phase t (called ref) })
  load_or_store_mutex : (t : ℕ) (ref : Bytes) → s.phase t ≡ called ref → Step s (enter t ref s)
  lock :
      (t : ℕ) (ref : Bytes) (m : ℕ)
      → s.phase t ≡ stored ref m
      → s.writer m ≡ false
      → s.readers m ≡ 0
      → Step s
          (record s { writer = update s.writer m true; phase = update s.phase t (building ref m) })
  delete_mutex :
      (t : ℕ) (ref : Bytes) (m : ℕ) (succeeded : Bool)
      → s.phase t ≡ building ref m
      → Step s (record s {
        build_mutex = delete ref s.build_mutex;
        phase = update s.phase t (deleted m succeeded);
      })
  unlock :
      (t m : ℕ) (succeeded : Bool)
      → s.phase t ≡ deleted m succeeded
      → Step s (record s {
        writer = update s.writer m false;
        phase = update s.phase t (returned succeeded);
      })
  r_lock :
      (t m : ℕ)
      → s.phase t ≡ waiting m
      → s.writer m ≡ false
      → Step s (record s {
        readers = update s.readers m (s.readers m + 1);
        phase = update s.phase t (reading m);
      })
  r_unlock :
      (t m : ℕ)
      → s.phase t ≡ reading m
      → Step s (record s {
        readers = update s.readers m (s.readers m - 1);
        phase = update s.phase t (returned true);
      })

pub data Reach (s : Builds) : Builds → Type 0 where
  here : Reach s s
  next : {t u : Builds} → Reach s t → Step t u → Reach s u

-- No request has called, and there is no mutex.
pub record IsInitial (s : Builds) : Type 0 where
  pub all_idle : (t : ℕ) → s.phase t ≡ idle
  pub no_mutex : s.build_mutex ≡ List.[]
