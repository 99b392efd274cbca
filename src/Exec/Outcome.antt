-- ===== src/Exec/Outcome.antt =====
-- Rules for what holds of the value of an action, wherever it returns no error.
use jitdi.Base.{◌≡◌, refl, ap}
use jitdi.Exec.{Exec, Result, ok, err, continue}
use jitdi.Exec.Pure

-- The value, if there is one, satisfies `Q`.
abbrev pub IfOk : {A : Type 0} → (A → Type 0) → Result A → Type 0
IfOk Q (ok a) = Q a
IfOk Q (err e) = Unit {0}

module _ {S A B : Type 0} (P : A → Type 0) (Q : B → Type 0) (f : A → Exec S B)
    (h : (a : A) (s : S) → P a → IfOk Q (f a s).0) where
  continue-IfOk : (r : Result A) (s : S) → IfOk P r → IfOk Q (continue f (r, s)).0
  continue-IfOk (ok a) s p = h a s p
  continue-IfOk (err e) s p = tt

  pub bind-IfOk :
      (m : Exec S A) → ((s : S) → IfOk P (m s).0) → (s : S) → IfOk Q (continue f (m s)).0
  bind-IfOk m p s = continue-IfOk (m s).0 (m s).1 (p s)

pub pure-IfOk :
    {A B : Type 0} (Q : B → Type 0) (f : A → Result B)
    → ((a : A) → IfOk Q (f a))
    → (r : Result A) → IfOk Q (Pure.◌>>=◌ r f)
pure-IfOk Q f h (ok a) = h a
pure-IfOk Q f h (err e) = tt

anything : {A : Type 0} → (r : Result A) → IfOk (λ _. Unit {0}) r
anything (ok a) = tt
anything (err e) = tt

-- Whatever the first call returns.
pub then-IfOk :
    {S A B : Type 0} (Q : B → Type 0) (m : Exec S A) (f : A → Exec S B)
    → ((a : A) (s : S) → IfOk Q (f a s).0)
    → (s : S) → IfOk Q (continue f (m s)).0
then-IfOk Q m f h = bind-IfOk (λ _. Unit {0}) Q f (λ a s _. h a s) m (λ s. anything (m s).0)

pub map-IfOk :
    {A : Type 0} (P Q : A → Type 0) → ((a : A) → P a → Q a) → (r : Result A) → IfOk P r → IfOk Q r
map-IfOk P Q f (ok a) p = f a p
map-IfOk P Q f (err e) p = tt

-- In a sequence of two results.
pub chain-IfOk :
    {A B : Type 0} (P : A → Type 0) (Q : B → Type 0) (f : A → Result B)
    → ((a : A) → P a → IfOk Q (f a))
    → (r : Result A) → IfOk P r
    → IfOk Q (Pure.◌>>=◌ r f)
chain-IfOk P Q f h (ok a) p = h a p
chain-IfOk P Q f h (err e) p = tt

-- The value of one result, of which an equation is known.
pub known-IfOk : {A : Type 0} (r : Result A) → IfOk (λ a. r ≡ ok a) r
known-IfOk (ok a) = refl
known-IfOk (err e) = tt

-- What follows a call that returned no error.
pub bind_ok :
    {S A B : Type 0} (m : Exec S A) (f : A → Exec S B) {s s' : S} {a : A}
    → m s ≡ (ok a, s')
    → continue f (m s) ≡ f a s'
bind_ok m f e = ap (continue f) e
