-- ===== src/Handler/BuildLock/Refinement.antt =====
-- pkg/handler/handler.go: what `buildMutex` is for, as a machine of its own, and that the lock
-- implements it.
use jitdi.Base.{
  ℕ, ◌≡◌, refl, sym, ◌∙◌, true, Option, none, some, Bytes, ◌==◌, arith, if◌then◌else◌, lookup,
  bytes_eq, bytes_eq_iff, Option-cases, inl, inr, Bool-cases,
}
use jitdi.Handler.BuildLock.{
  Phase, called, stored, building, deleted, waiting, reading, returned, Builds, update, enter, Step,
  call, load_or_store_mutex, lock, delete_mutex, unlock, r_lock, r_unlock, Reach, here, next,
  IsInitial,
}
use jitdi.Handler.BuildLock.Exclusion.{owned, IsGuarded, IsGuarded-init, Reach-IsGuarded}

-- Which request builds each reference.
abbrev pub Owners : Type 0
Owners = Bytes → Option ℕ

abbrev pub set_owner : Owners → Bytes → Option ℕ → Owners
set_owner b ref o r = if bytes_eq ref r then o else b r

-- A free reference may be taken, and a request gives back what it has; nothing else happens.
pub data OwnerStep (b : Owners) : Owners → Type 0 where
  stay : OwnerStep b b
  take : (ref : Bytes) (t : ℕ) → b ref ≡ none → OwnerStep b (set_owner b ref (some t))
  give_back : (ref : Bytes) (t : ℕ) → b ref ≡ some t → OwnerStep b (set_owner b ref none)

pub data OwnerReach (b : Owners) : Owners → Type 0 where
  unmoved : OwnerReach b b
  then_step : {c d : Owners} → OwnerReach b c → OwnerStep c d → OwnerReach b d

-- The owners are the requests that have stored a mutex for the reference and have not deleted it.
pub record Represents (s : Builds) (b : Owners) : Type 0 where
  pub has : (t : ℕ) (ref : Bytes) (m : ℕ) → owned (s.phase t) ≡ some (ref, m) → b ref ≡ some t
  pub of : (t : ℕ) (ref : Bytes) → b ref ≡ some t → (m : ℕ) × (owned (s.phase t) ≡ some (ref, m))

owned-update :
    (s : Builds) (t : ℕ) (p : Phase) (v : ℕ)
    → owned (update s.phase t p v) ≡ (if t == v then owned p else owned (s.phase v))
owned-update s t p v = ground arith

-- A step of one request that changes nothing of what it owns.
Represents-kept :
    (s : Builds) (b : Owners) (t : ℕ) (p : Phase) (u : Builds)
    → u.phase ≡ update s.phase t p
    → owned p ≡ owned (s.phase t)
    → Represents s b
    → Represents u b
Represents-kept s b t p u e h r = record {
  has = λ v ref m o. r.has v ref m (sym (same v) ∙ o);
  of = λ v ref o. let (m, q) = r.of v ref o in (m, same v ∙ q);
}
  where
    same : (v : ℕ) → owned (u.phase v) ≡ owned (s.phase v)
    same v = rw e (ground (arith, owned-update s t p v))

-- A request that comes to own a free reference.
Represents-take :
    (s : Builds) (b : Owners) (t : ℕ) (ref : Bytes) (n : ℕ) (u : Builds)
    → u.phase ≡ update s.phase t (stored ref n)
    → owned (s.phase t) ≡ none
    → b ref ≡ none
    → Represents s b
    → Represents u (set_owner b ref (some t))
Represents-take s b t ref n u e old free r = record {
  has = λ v q m o. ground (arith, at v, r.has v q m, bytes_eq_iff ref q);
  of = λ v q o. elim (Bool-cases (bytes_eq ref q)) [
    | inl h ↦ (n, ground (arith, at v, bytes_eq_iff ref q))
    | inr h ↦ let (m, k) = r.of v q (ground arith) in (m, ground (arith, at v))
  ];
}
  where
    at : (v : ℕ) → owned (u.phase v) ≡ (if t == v then owned (stored ref n) else owned (s.phase v))
    at v = rw e (owned-update s t (stored ref n) v)

-- A request that owns nothing any more.
Represents-give_back :
    (s : Builds) (b : Owners) (t : ℕ) (ref : Bytes) (n : ℕ) (p : Phase) (u : Builds)
    → u.phase ≡ update s.phase t p
    → owned (s.phase t) ≡ some (ref, n)
    → owned p ≡ none
    → Represents s b
    → Represents u (set_owner b ref none)
Represents-give_back s b t ref n p u e old now r = record {
  has = λ v q m o. ground (arith, at v, at t, r.has v q m, r.has t ref n, bytes_eq_iff ref q);
  of = λ v q o. elim (Bool-cases (bytes_eq ref q)) [
    | inl h ↦ absurd (ground arith)
    | inr h ↦ let (m, k) = r.of v q (ground arith) in (m, ground (arith, at v, bytes_eq_iff ref q))
  ];
}
  where
    at : (v : ℕ) → owned (u.phase v) ≡ (if t == v then owned (p) else owned (s.phase v))
    at v = rw e (owned-update s t (p) v)

enter-Represents :
    (s : Builds) (b : Owners) (t : ℕ) (ref : Bytes)
    → s.phase t ≡ called ref
    → IsGuarded s
    → Represents s b
    → (c : Owners) × OwnerStep b c × Represents (enter t ref s) c
unfolding enter
enter-Represents s b t ref e g r = elim (Option-cases (lookup ref s.build_mutex)) [
  | inr (m, l) ↦ (b, stay, rw l (Represents-kept s b t (waiting m) _ refl (ground arith) r))
  | inl l ↦
      let free : b ref ≡ none = elim (Option-cases (b ref)) [
        | inl f ↦ f
        | inr (v, f) ↦ let (m, o) = r.of v ref f in absurd (cc (g.entry v ref m o, l))
      ] in
      (
        set_owner b ref (some t),
        take ref t free,
        rw l (Represents-take s b t ref s.next_mutex _ refl (ground arith) free r),
      )
]

Step-Represents :
    {s u : Builds} (b : Owners)
    → Step s u
    → IsGuarded s
    → Represents s b
    → (c : Owners) × OwnerStep b c × Represents u c
Step-Represents {s} b (call t ref e) g r =
    (b, stay, Represents-kept s b t (called ref) _ refl (ground arith) r)
Step-Represents {s} b (lock t ref m e f h) g r =
    (b, stay, Represents-kept s b t (building ref m) _ refl (ground arith) r)
Step-Represents {s} b (unlock t m o e) g r =
    (b, stay, Represents-kept s b t (returned o) _ refl (ground arith) r)
Step-Represents {s} b (r_lock t m e f) g r =
    (b, stay, Represents-kept s b t (reading m) _ refl (ground arith) r)
Step-Represents {s} b (r_unlock t m e) g r =
    (b, stay, Represents-kept s b t (returned true) _ refl (ground arith) r)
Step-Represents {s} b (load_or_store_mutex t ref e) g r = enter-Represents s b t ref e g r
Step-Represents {s} b (delete_mutex t ref m o e) g r =
    let mine : owned (s.phase t) ≡ some (ref, m) = ground arith in
    (
      set_owner b ref none,
      give_back ref t (r.has t ref m mine),
      Represents-give_back s b t ref m (deleted m o) _ refl mine refl r,
    )

abbrev pub no_owners : Owners
no_owners ref = none

initial-Represents : (s : Builds) → IsInitial s → Represents s no_owners
initial-Represents s i = record {
  has = λ t ref m e. ground (arith, i.all_idle t);
  of = λ t ref e. absurd (cc);
}

-- Every interleaving of the requests runs the machine that hands each reference to one owner at a time
-- and takes it back from that owner: the owners are the requests between `LoadOrStore` and `Delete`.
pub build_mutex_refines :
    (start s : Builds)
    → IsInitial start
    → Reach start s
    → (b : Owners) × OwnerReach no_owners b × Represents s b
build_mutex_refines start s i here = (no_owners, unmoved, initial-Represents start i)
build_mutex_refines start s i (next r st) =
    let (b, o, p) = build_mutex_refines start _ i r in
    let (c, q, p') = Step-Represents b st (Reach-IsGuarded (IsGuarded-init start i) r) p in
    (c, then_step o q, p')
