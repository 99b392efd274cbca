-- ===== src/Api/DeepCopy/Copies.antt =====
-- What a deep copy is: a thing in new memory that stands for the same.
use jitdi.Base.{ℕ, ◌≤◌, ◌<◌, ◌≡◌, refl, ◌∙◌, arith}
use jitdi.Exec.{Result, ok}
use jitdi.Api.Memory.{Library, in_memory, Heap}
use jitdi.Api.DeepCopy.{M}

abbrev pub Below : ℕ → ℕ → Type 0
Below n p = p < n

abbrev pub Between : ℕ → ℕ → ℕ → Type 0
Between n n' p = (n ≤ p) × (p < n')

module _ (L : Library) where
  abbrev pub Memory : Type 0
  Memory = Heap (in_memory L) L.Other

  -- The addresses that were in use have their contents.
  abbrev pub Extends : Memory → Memory → Type 0
  Extends h h' = (h.next ≤ h'.next) × ((p : ℕ) → p < h.next → h'.cells p ≡ h.cells p)

  pub Extends-trans : (h h1 h2 : Memory) → Extends h h1 → Extends h1 h2 → Extends h h2
  Extends-trans h h1 h2 (n, e) (m, f) =
      (omega (arith, n, m), λ p l. f p (omega (arith, l, n)) ∙ e p l)

  -- When a thing in memory, at addresses that satisfy `P`, stands for another.
  abbrev pub StandsFor : Type 0 → Type 0 → Type 1
  StandsFor X Y = (ℕ → Type 0) → Memory → X → Y → Type 0

  -- What stands for a thing depends on its addresses alone.
  abbrev pub IsLocal : {X Y : Type 0} → StandsFor X Y → Type 1
  IsLocal {X} {Y} R =
      (P Q : ℕ → Type 0) (h h' : Memory) (x : X) (y : Y)
      → ((p : ℕ) → P p → Q p × (h'.cells p ≡ h.cells p))
      → R P h x y
      → R Q h' x y

  -- The copy returns no error, lies at new addresses, stands for the same, and leaves the rest.
  abbrev pub CopyOf : {X Y : Type 0} → StandsFor X Y → Memory → Y → Result X × Memory → Type 0
  CopyOf {X} R h y r =
      (x' : X) × (h' : Memory) × (r ≡ (ok x', h'))
      × Extends h h'
      × R (Between h.next h'.next) h' x' y

  pub record IsCopy {X Y : Type 0} (R : StandsFor X Y) (f : X → M L X) : Type 1 where
    pub is_local : IsLocal R
    pub copies : (h : Memory) (x : X) (y : Y) → R (Below h.next) h x y → CopyOf R h y (f x h)

  -- A thing without pointers stands for itself.
  abbrev pub Plain : {X : Type 0} → StandsFor X X
  Plain P h x y = x ≡ y

  module _ {X Y X' Y' : Type 0} (R : StandsFor X Y) (R' : StandsFor X' Y') where
    -- Two copies in sequence, of things that are there from the start.
    pub record Both (h : Memory) (y : Y) (y' : Y') (f : M L X) (g : M L X') : Type 0 where
      pub first : X
      pub second : X'
      pub middle : Memory
      pub last : Memory
      pub ran_first : f h ≡ (ok first, middle)
      pub ran_second : g middle ≡ (ok second, last)
      pub extends_middle : Extends h middle
      pub extends : Extends h last
      pub stands_first : R (Between h.next last.next) last first y
      pub stands_second : R' (Between h.next last.next) last second y'

    pub both :
        (f : X → M L X) (g : X' → M L X')
        → IsCopy R f
        → IsCopy R' g
        → (h : Memory) (x : X) (y : Y) (x' : X') (y' : Y') → R (Below h.next) h x y
        → R' (Below h.next) h x' y'
        → Both h y y' (f x) (g x')
    both f g c c' h x y x' y' r r' =
        let (a, h1, e, ext, s) = c.copies h x y r in
        let (a', h2, e', ext', s') = c'.copies h1 x' y' (
          c'.is_local (Below h.next) (Below h1.next) h h1 x' y'
            (λ p l. (omega (arith, l, ext.0), ext.1 p l)) r') in
        record {
          first = a;
          second = a';
          middle = h1;
          last = h2;
          ran_first = e;
          ran_second = e';
          extends_middle = ext;
          extends = Extends-trans h h1 h2 ext ext';
          stands_first =
              c.is_local (Between h.next h1.next) (Between h.next h2.next) h1 h2 a y
                (λ p b. ((b.0, omega (arith, b, ext'.0)), ext'.1 p b.1)) s;
          stands_second =
              c'.is_local (Between h1.next h2.next) (Between h.next h2.next) h2 h2 a' y'
                (λ p b. ((omega (arith, b, ext.0), b.1), refl)) s';
        }

  module _ {X Y X' Y' X'' Y'' : Type 0} (R : StandsFor X Y) (R' : StandsFor X' Y')
      (R'' : StandsFor X'' Y'') where
    -- Three copies in sequence.
    pub record Three (h : Memory) (y : Y) (y' : Y') (y'' : Y'') (f : M L X) (g : M L X')
        (k : M L X'') : Type 0 where
      pub first : X
      pub second : X'
      pub third : X''
      pub m1 : Memory
      pub m2 : Memory
      pub last : Memory
      pub ran_first : f h ≡ (ok first, m1)
      pub ran_second : g m1 ≡ (ok second, m2)
      pub ran_third : k m2 ≡ (ok third, last)
      pub extends : Extends h last
      pub stands_first : R (Between h.next last.next) last first y
      pub stands_second : R' (Between h.next last.next) last second y'
      pub stands_third : R'' (Between h.next last.next) last third y''

    pub three :
        (f : X → M L X) (g : X' → M L X') (k : X'' → M L X'')
        → IsCopy R f
        → IsCopy R' g
        → IsCopy R'' k
        → (h : Memory) (x : X) (y : Y) (x' : X') (y' : Y') (x'' : X'') (y'' : Y'')
        → R (Below h.next) h x y
        → R' (Below h.next) h x' y'
        → R'' (Below h.next) h x'' y''
        → Three h y y' y'' (f x) (g x') (k x'')
    three f g k c c' c'' h x y x' y' x'' y'' r r' r'' =
        let b = both R R' f g c c' h x y x' y' r r' in
        let (a, h', e, ext, s) = c''.copies b.last x'' y'' (
          c''.is_local (Below h.next) (Below b.last.next) h b.last x'' y''
            (λ p l. (omega (arith, l, b.extends.0), b.extends.1 p l)) r'') in
        let still : (p : ℕ)
            → Between h.next b.last.next p
            → Between h.next h'.next p × (h'.cells p ≡ b.last.cells p) =
          λ p i. ((i.0, omega (arith, i, ext.0)), ext.1 p i.1) in
        record {
          first = b.first;
          second = b.second;
          third = a;
          m1 = b.middle;
          m2 = b.last;
          last = h';
          ran_first = b.ran_first;
          ran_second = b.ran_second;
          ran_third = e;
          extends = Extends-trans h b.last h' b.extends ext;
          stands_first =
              c.is_local (Between h.next b.last.next) (Between h.next h'.next) b.last h' b.first y
                still b.stands_first;
          stands_second =
              c'.is_local (Between h.next b.last.next) (Between h.next h'.next) b.last h' b.second
                y' still b.stands_second;
          stands_third =
              c''.is_local (Between b.last.next h'.next) (Between h.next h'.next) h' h' a y''
                (λ p i. ((omega (arith, i, b.extends.0), i.1), refl)) s;
        }
