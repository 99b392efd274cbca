-- ===== src/Handler/BuildLock/Exclusion.antt =====
-- pkg/handler/handler.go: at most one request builds a reference at any time.
use jitdi.Base.{
  ℕ, ◌+◌, ◌<◌, ◌≡◌, refl, Bool, true, false, Option, none, some, Bytes, arith, lookup,
  lookup-insert, lookup-remove, bytes_eq_iff, Option-cases, inl, inr,
}
use jitdi.Atomic.Maps.{delete}
use jitdi.Handler.BuildLock.{
  Phase, called, stored, building, deleted, reading, returned, Builds, update, enter, Step, call,
  load_or_store_mutex, lock, delete_mutex, unlock, r_lock, r_unlock, Reach, here, next, IsInitial,
}

-- The reference and the mutex of a request that has stored its mutex and has not deleted it.
abbrev pub owned : Phase → Option (Bytes × ℕ)
owned (stored ref m) = some (ref, m)
owned (building ref m) = some (ref, m)
owned _ = none

pub record IsGuarded (s : Builds) : Type 0 where
  pub entry :
      (t : ℕ) (ref : Bytes) (m : ℕ)
      → owned (s.phase t) ≡ some (ref, m)
      → lookup ref s.build_mutex ≡ some m
  pub fresh : (t : ℕ) (ref : Bytes) (m : ℕ) → owned (s.phase t) ≡ some (ref, m) → m < s.next_mutex
  pub distinct :
      (t u : ℕ) (ref ref' : Bytes) (m : ℕ)
      → owned (s.phase t) ≡ some (ref, m)
      → owned (s.phase u) ≡ some (ref', m)
      → t ≡ u

-- A request that owns nothing after its step, while map and numbers stay: `quiet`.
quiet :
    (s : Builds) (t : ℕ) (p : Phase) (w : ℕ → Bool) (r : ℕ → ℕ)
    → owned p ≡ none
    → IsGuarded s
    → IsGuarded (record s { writer = w; readers = r; phase = update s.phase t p })
quiet s t p w r h g = record {
  entry = λ u ref m e. ground (arith, g.entry u ref m, h);
  fresh = λ u ref m e. ground (arith, g.fresh u ref m, h);
  distinct = λ u v ref ref' m e f. ground (arith, g.distinct u v ref ref' m, h);
}

delete-IsGuarded :
    (s : Builds) (t : ℕ) (ref : Bytes) (m : ℕ) (b : Bool)
    → s.phase t ≡ building ref m
    → IsGuarded s
    → IsGuarded (record s {
      build_mutex = delete ref s.build_mutex;
      phase = update s.phase t (deleted m b);
    })
unfolding delete
delete-IsGuarded s t ref m b e g = record {
  entry = λ u r n k. ground (
    arith,
    g.entry u r n,
    g.entry t ref m,
    g.distinct u t r ref m,
    lookup-remove ref r s.build_mutex,
    bytes_eq_iff ref r,
  );
  fresh = λ u r n k. ground (arith, g.fresh u r n);
  distinct = λ u v r r' n k l. ground (arith, g.distinct u v r r' n);
}

enter-IsGuarded :
    (s : Builds) (t : ℕ) (ref : Bytes)
    → s.phase t ≡ called ref
    → IsGuarded s
    → IsGuarded (enter t ref s)
unfolding enter
enter-IsGuarded s t ref e g = elim (Option-cases (lookup ref s.build_mutex)) [
  | inr (m, h) ↦ rw h (record {
    entry = λ u r n k. ground (arith, g.entry u r n);
    fresh = λ u r n k. ground (arith, g.fresh u r n);
    distinct = λ u v r r' n k l. ground (arith, g.distinct u v r r' n);
  })
  | inl h ↦ rw h (record {
    entry = λ u r n k.
        ground (
          arith,
          g.entry u r n,
          lookup-insert ref r s.next_mutex s.build_mutex,
          bytes_eq_iff ref r,
        );
    fresh = λ u r n k. ground (arith, g.fresh u r n);
    distinct =
        λ u v r r' n k l. ground (arith, g.distinct u v r r' n, g.fresh u r n, g.fresh v r' n);
  })
]

pub Step-IsGuarded : {s u : Builds} → Step s u → IsGuarded s → IsGuarded u
Step-IsGuarded {s} (call t ref e) g = quiet s t (called ref) s.writer s.readers refl g
Step-IsGuarded {s} (unlock t m b e) g =
    quiet s t (returned b) (update s.writer m false) s.readers refl g
Step-IsGuarded {s} (r_lock t m e f) g =
    quiet s t (reading m) s.writer (update s.readers m (s.readers m + 1)) refl g
Step-IsGuarded {s} (r_unlock t m e) g = quiet s t (returned true) s.writer _ refl g
Step-IsGuarded {s} (lock t ref m e f h) g = record {
  entry = λ u r n k. ground (arith, g.entry u r n, g.entry t ref m);
  fresh = λ u r n k. ground (arith, g.fresh u r n, g.fresh t ref m);
  distinct = λ u v r r' n k l.
      ground (arith, g.distinct u v r r' n, g.distinct t v ref r' n, g.distinct u t r ref n);
}
Step-IsGuarded {s} (delete_mutex t ref m b e) g = delete-IsGuarded s t ref m b e g
Step-IsGuarded {s} (load_or_store_mutex t ref e) g = enter-IsGuarded s t ref e g

pub IsGuarded-init : (s : Builds) → IsInitial s → IsGuarded s
IsGuarded-init s i = record {
  entry = λ t ref m e. ground (arith, i.all_idle t);
  fresh = λ t ref m e. ground (arith, i.all_idle t);
  distinct = λ t u ref ref' m e f. ground (arith, i.all_idle t);
}

pub Reach-IsGuarded : {s u : Builds} → IsGuarded s → Reach s u → IsGuarded u
Reach-IsGuarded g here = g
Reach-IsGuarded g (next r st) = Step-IsGuarded st (Reach-IsGuarded g r)

-- However the requests interleave, two that build the same reference are one and the same request.
pub build_exclusive :
    (start s : Builds) (t u : ℕ) (ref : Bytes) (m n : ℕ)
    → IsInitial start
    → Reach start s
    → s.phase t ≡ building ref m
    → s.phase u ≡ building ref n
    → t ≡ u
build_exclusive start s t u ref m n i r e f =
    let g = Reach-IsGuarded (IsGuarded-init start i) r in
    ground (arith, g.entry t ref m, g.entry u ref n, g.distinct t u ref ref m)
