-- ===== src/Exec/Pure.antt =====
-- Results without a state, in sequence.
use jitdi.Exec.{Result, ok, err}

infixl 5 ◌>>=◌
abbrev pub ◌>>=◌ : {A B : Type 0} → Result A → (A → Result B) → Result B
ok a >>= f = f a
err e >>= f = err e
