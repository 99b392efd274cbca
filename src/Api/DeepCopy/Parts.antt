-- ===== src/Api/DeepCopy/Parts.antt =====
-- pkg/apis/v1alpha1/zz_generated.deepcopy.go: the copies of what is behind a pointer or a slice.
use jitdi.Base.{
  ℕ, suc, ◌≤◌, ◌<◌, ◌≡◌, refl, sym, ap, ◌∙◌, true, false, Option, none, some, List, [], ◌∷◌, arith,
  if◌then◌else◌, ◌==◌, ltb, subst,
}
use jitdi.Exec.{Result, ok, pure, continue, ◌>>=◌}
use jitdi.Exec.Outcome.{bind_ok}
use jitdi.Api.Memory.{Addr, Library, in_memory, Kind, Cell, new, read_at, write_at}
use jitdi.Api.DeepCopy.{M, copy_pointer, each_into, object_of}
use jitdi.Api.DeepCopy.Copies.{
  Below, Between, Memory, Extends, StandsFor, IsLocal, CopyOf, IsCopy, Plain, Extends-trans,
}

ltb_from : (n a : ℕ) → n ≤ a → ltb a n ≡ false
ltb_from n a l = ground (arith, l)

ltb_below : (n a : ℕ) → a < n → ltb a n ≡ true
ltb_below n a l = ground (arith, l)

module _ (L : Library) where
  -- `*out = *in` for a thing without pointers.
  pub plain-IsCopy :
      {X : Type 0} → (f : X → M L X) → ((x : X) → f x ≡ pure x) → IsCopy L (Plain L) f
  plain-IsCopy f e = record {
    is_local = λ P Q h h' x y k r. r;
    copies = λ h x y r. (x, h, ap (λ m. m h) (e x), ((omega arith), λ p l. refl), r);
  }

  module _ {X Y : Type 0} (R : StandsFor L X Y) where
    -- Nil for nil, and what is pointed at for the other.
    abbrev pub Pointed : Kind (in_memory L) L.Other X → StandsFor L (Addr X) (Option Y)
    Pointed kind P h none none = Unit
    Pointed kind P h (some p) (some y) = P p × (x : X) × (kind.get (h.cells p) ≡ some x) × R P h x y
    Pointed kind P h _ _ = ⊥

    abbrev pub Elements : StandsFor L (List X) (List Y)
    Elements P h [] [] = Unit
    Elements P h (x ∷ xs) (y ∷ ys) = R P h x y × Elements P h xs ys
    Elements P h _ _ = ⊥

    Pointed-IsLocal : (kind : Kind (in_memory L) L.Other X) → IsLocal L R → IsLocal L (Pointed kind)
    Pointed-IsLocal kind l P Q h h' none none k r = tt
    Pointed-IsLocal kind l P Q h h' (some p) (some y) k (b, x, e, r) =
        ((k p b).0, x, ap kind.get (k p b).1 ∙ e, l P Q h h' x y k r)
    Pointed-IsLocal kind l P Q h h' none (some y) k r = absurd r
    Pointed-IsLocal kind l P Q h h' (some p) none k r = absurd r

    Elements-IsLocal : IsLocal L R → IsLocal L Elements
    Elements-IsLocal l P Q h h' [] [] k r = tt
    Elements-IsLocal l P Q h h' (x ∷ xs) (y ∷ ys) k (r, rs) =
        (l P Q h h' x y k r, Elements-IsLocal l P Q h h' xs ys k rs)
    Elements-IsLocal l P Q h h' [] (y ∷ ys) k r = absurd r
    Elements-IsLocal l P Q h h' (x ∷ xs) [] k r = absurd r

    module _ (f : X → M L X) (c : IsCopy L R f) where
      copy_pointer_steps :
          (kind : Kind (in_memory L) L.Other X) (p : ℕ) (x x' : X) (h h2 : Memory L)
          → kind.get (h.cells p) ≡ some x
          → f x (record h { next = suc h.next }) ≡ (ok x', h2)
          → copy_pointer kind f (some p) h ≡ (
            ok (some h.next),
            record h2 { cells = λ q. if h.next == q then kind.put x' else h2.cells q },
          )
      unfolding copy_pointer new read_at write_at
      copy_pointer_steps kind p x x' h h2 e e' = simp (e, e') refl

      other_cell : (n p : ℕ) → p < n → (n == p) ≡ false
      other_cell n p l = ground (arith, l)

      later_cell : (n p : ℕ) → suc n ≤ p → (n == p) ≡ false
      later_cell n p l = ground (arith, l)

      same_cell : (n : ℕ) → (n == n) ≡ true
      same_cell n = ground arith

      copy_pointer-copies :
          (kind : Kind (in_memory L) L.Other X) (h : Memory L) (a : Addr X) (y : Option Y)
          → Pointed kind (Below h.next) h a y
          → CopyOf L (Pointed kind) h y (copy_pointer kind f a h)
      copy_pointer-copies kind h none none r =
          (none, h, (unfold copy_pointer in refl), (omega arith, λ p l. refl), tt)
      copy_pointer-copies kind h (some p) (some y) (b, x, e, r) =
          let n = h.next in
          let h1 : Memory L = record h { next = suc n } in
          let (x', h2, ran, ext, s) =
            c.copies h1 x y
              (c.is_local (Below n) (Below (suc n)) h h1 x y (λ p l. (omega (arith, l), refl)) r) in
          let h3 : Memory L = record h2 {
            cells = λ q. if n == q then kind.put x' else h2.cells q;
          } in
          (
            some n,
            h3,
            copy_pointer_steps kind p x x' h h2 e ran,
            (omega (arith, ext.0), λ q l. rw (other_cell n q l) (ext.1 q (omega (arith, l)))),
            (
              (omega arith, omega (arith, ext.0)),
              x',
              ap kind.get (rw (same_cell n) refl) ∙ kind.get-put x',
              c.is_local (Between (suc n) h2.next) (Between n h2.next) h2 h3 x' y
                  (λ q b. ((omega (arith, b), b.1), rw (later_cell n q b.0) refl)) s,
            ),
          )
      copy_pointer-copies kind h none (some y) r = absurd r
      copy_pointer-copies kind h (some p) none r = absurd r

      pub copy_pointer-IsCopy :
          (kind : Kind (in_memory L) L.Other X) → IsCopy L (Pointed kind) (copy_pointer kind f)
      copy_pointer-IsCopy kind = record {
        is_local = Pointed-IsLocal kind c.is_local;
        copies = copy_pointer-copies kind;
      }

      each_into-copies :
          (h : Memory L) (xs : List X) (ys : List Y)
          → Elements (Below h.next) h xs ys
          → CopyOf L Elements h ys (each_into f xs h)
      unfolding each_into
      each_into-copies h [] [] r = ([], h, refl, (omega arith, λ p l. refl), tt)
      each_into-copies h (x ∷ xs) (y ∷ ys) (r, rs) =
          let (x', h1, e, ext, s) = c.copies h x y r in
          let (xs', h2, e', ext', s') = each_into-copies h1 xs ys (
            Elements-IsLocal c.is_local (Below h.next) (Below h1.next) h h1 xs ys
              (λ p l. (omega (arith, l, ext.0), ext.1 p l)) rs) in
          (
            x' ∷ xs',
            h2,
            bind_ok (f x) (λ a'. each_into f xs >>= λ rest. pure (a' ∷ rest)) e
                ∙ bind_ok (each_into f xs) (λ rest. pure (x' ∷ rest)) e',
            Extends-trans L h h1 h2 ext ext',
            (
              c.is_local (Between h.next h1.next) (Between h.next h2.next) h1 h2 x' y
                  (λ p b. ((b.0, omega (arith, b, ext'.0)), ext'.1 p b.1)) s,
              Elements-IsLocal c.is_local (Between h1.next h2.next) (Between h.next h2.next) h2 h2
                  xs' ys (λ p b. ((omega (arith, b, ext.0), b.1), refl)) s',
            ),
          )
      each_into-copies h [] (y ∷ ys) r = absurd r
      each_into-copies h (x ∷ xs) [] r = absurd r

      pub each_into-IsCopy : IsCopy L Elements (each_into f)
      each_into-IsCopy = record {
        is_local = Elements-IsLocal c.is_local;
        copies = each_into-copies;
      }

  -- Memory in which something else was written to all addresses below `n`, or to all from `n` on.
  abbrev pub overwritten_below : ℕ → (ℕ → Cell (in_memory L) L.Other) → Memory L → Memory L
  overwritten_below n w h = record h { cells = λ r. if ltb r n then w r else h.cells r }

  abbrev pub overwritten_from : ℕ → (ℕ → Cell (in_memory L) L.Other) → Memory L → Memory L
  overwritten_from n w h = record h { cells = λ r. if ltb r n then h.cells r else w r }

  -- The call returned a pointer to a thing that stands for `t` whatever is written below `n`, and the
  -- pointer `p` is to one that does so whatever is written from `n` on.
  abbrev pub IsApart :
      {X Y : Type 0}
      → StandsFor L X Y
      → Kind (in_memory L) L.Other X
      → (n p : ℕ) → Y
      → (ℕ → Cell (in_memory L) L.Other)
      → Result (Addr X) × Memory L
      → Type 0
  IsApart R kind n p t w r =
      (q : ℕ) × (h' : Memory L) × (r ≡ (ok (some q), h'))
      × Pointed R kind (λ a. n ≤ a) (overwritten_below n w h') (some q) (some t)
      × Pointed R kind (Below n) (overwritten_from n w h') (some p) (some t)

  module _ {X Y : Type 0} (R : StandsFor L X Y) (f : X → M L X) (c : IsCopy L R f)
      (kind : Kind (in_memory L) L.Other X) where
    returned-IsApart :
        (h : Memory L) (p : ℕ) (t : Y) (w : ℕ → Cell (in_memory L) L.Other)
        → Pointed R kind (Below h.next) h (some p) (some t)
        → (a : Addr X) (h' : Memory L) → Extends L h h'
        → Pointed R kind (Between h.next h'.next) h' a (some t)
        → IsApart R kind h.next p t w (object_of a h')
    unfolding object_of
    returned-IsApart h p t w r none h' ext s = absurd s
    returned-IsApart h p t w r (some q) h' ext s = (
      q,
      h',
      refl,
      Pointed-IsLocal R kind c.is_local (Between h.next h'.next) (λ a. h.next ≤ a) h'
          (overwritten_below h.next w h') (some q) (some t)
          (λ a b. (b.0, rw (ltb_from h.next a b.0) refl)) s,
      Pointed-IsLocal R kind c.is_local (Below h.next) (Below h.next) h
          (overwritten_from h.next w h') (some p) (some t)
          (λ a l. (l, rw (ltb_below h.next a l) (ext.1 a l))) r,
    )

    pub copied-IsApart :
        (h : Memory L) (p : ℕ) (t : Y) (w : ℕ → Cell (in_memory L) L.Other)
        → Pointed R kind (Below h.next) h (some p) (some t)
        → IsApart R kind h.next p t w (continue object_of (copy_pointer kind f (some p) h))
    copied-IsApart h p t w r =
        let (a, h', e, ext, s) = (copy_pointer-IsCopy R f c kind).copies h (some p) (some t) r in
        subst (λ r. IsApart R kind h.next p t w (continue object_of r)) (sym e)
          (returned-IsApart h p t w r a h' ext s)
