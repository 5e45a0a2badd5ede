-- ===== src/DeepCopy/Memory/Pointers.antt =====
-- The copies of plain values, pointers and slices (operator/api/v1alpha1/zz_generated.deepcopy.go) are
-- deep.
use bruk.Prelude.{ℕ, zero, suc, List, [], ◌∷◌, ◌++◌, Option, none, some, ◌≡◌, refl, sym, ap, arith}
use mathlib.Core.List.{append_assoc, append-nil}
use mathlib.Core.Path.{subst}
use bruk.Prelude.{Option-cases, inl, inr}
use bruk.DeepCopy.Memory.{cell_at, size, M, Stored, Pointer, read, copy_pointer, copy_each}
use bruk.DeepCopy.Memory.Deep.{IsDeep, ◌>>=◌, bind-eq-some, size-append, see_pointer, see_each}

module _ {Cell : Type 0} where
  cell_at-append :
      (h more : List Cell) (p : ℕ) (c : Cell)
      → cell_at h p ≡ some c
      → cell_at (h ++ more) p ≡ some c
  cell_at-append [] more p c e = cc
  cell_at-append (d ∷ h) more zero c e = e
  cell_at-append (d ∷ h) more (suc p) c e = cell_at-append h more p c e

  -- The cell that is added at an address.
  cell_at-size :
      (g h : List Cell) (c : Cell) → size g ≡ size h → cell_at (g ++ c ∷ []) (size h) ≡ some c
  cell_at-size [] [] c e = refl
  cell_at-size [] (d ∷ h) c e = absurd (omega (arith, e))
  cell_at-size (d ∷ g) [] c e = absurd (omega (arith, e))
  cell_at-size (d ∷ g) (b ∷ h) c e = cell_at-size g h c (omega (arith, e))

-- A value without pointers is copied by the assignment alone.
pub IsDeep-plain :
    {Cell T V : Type 0} (f : T → V) → IsDeep {Cell = Cell} (λ h x. some (f x)) (λ x h. some (x, h))
IsDeep-plain f = record {
  grows = λ h more x v e. e;
  copies = λ h x v e. (x, [], ap (λ k. some (x, k)) (sym (append-nil h)), λ g same. e);
}

-- The same copy, with another reading of what it denotes.
pub IsDeep-map :
    {Cell T V W : Type 0} {see : List Cell → T → Option V} {into : T → M Cell T} (f : V → W)
    → IsDeep see into
    → IsDeep (λ h x. see h x >>= λ v. some (f v)) into
IsDeep-map {see = see} {into} f deep = record {
  grows = λ h more x w e.
      let (v, seen, made) = bind-eq-some (see h x) (λ v. some (f v)) w e in
      rw (deep.grows h more x v seen) made;
  copies = λ h x w e.
      let (v, seen, made) = bind-eq-some (see h x) (λ v. some (f v)) w e in
      let (y, new, ran, holds) = deep.copies h x v seen in
      (y, new, ran, λ g same. rw (holds g same) made);
}

module _ {Cell T V : Type 0} (S : Stored Cell T) {see : List Cell → T → Option V}
    {into : T → M Cell T} (deep : IsDeep see into) where
  read-append :
      (h more : List Cell) (p : ℕ) (x : T) → read S h p ≡ some x → read S (h ++ more) p ≡ some x
  unfolding read
  read-append h more p x e = elim (Option-cases (cell_at h p)) [
    | inl missing ↦ let no : none ≡ some x = (rw missing at e) in cc
    | inr (c, there) ↦
        let taken : S.take c ≡ some x = (rw (there, read) at e) in
        rw (cell_at-append h more p c there, read) taken
  ]

  read-put :
      (g h : List Cell) (x : T) → size g ≡ size h → read S (g ++ S.put x ∷ []) (size h) ≡ some x
  unfolding read
  read-put g h x same = rw (cell_at-size g h (S.put x) same, read) (S.take-put x)

  pointer-grows :
      (h more : List Cell) (p : Pointer) (o : Option V)
      → see_pointer S see h p ≡ some o
      → see_pointer S see (h ++ more) p ≡ some o
  unfolding see_pointer
  pointer-grows h more none o e = e
  pointer-grows h more (some p) o e =
      let (x, found, e') = bind-eq-some (read S h p) _ o e in
      let (v, seen, made) = bind-eq-some (see h x) _ o e' in
      rw (read-append h more p x found, deep.grows h more x v seen) made

  pointer-ran :
      (h : List Cell) (p : ℕ) (x y : T) (new : List Cell)
      → read S h p ≡ some x
      → into x h ≡ some (y, h ++ new)
      → copy_pointer S into (some p) h ≡ some (some (size (h ++ new)), h ++ (new ++ S.put y ∷ []))
  unfolding copy_pointer
  pointer-ran h p x y new found ran =
      rw (found, ran) (ap (λ k. some (some (size (h ++ new)), k)) (append_assoc h new _))

  pointer-copies :
      (h : List Cell) (p : Pointer) (o : Option V)
      → see_pointer S see h p ≡ some o
      → (q : Pointer) × (new : List Cell) × (copy_pointer S into p h ≡ some (q, h ++ new))
        × ((g : List Cell) → size g ≡ size h → see_pointer S see (g ++ new) q ≡ some o)
  unfolding see_pointer copy_pointer
  pointer-copies h none o e = (none, [], ap (λ k. some (none, k)) (sym (append-nil h)), λ g same. e)
  pointer-copies h (some p) o e =
      let (x, found, e') = bind-eq-some (read S h p) _ o e in
      let (v, seen, made) = bind-eq-some (see h x) _ o e' in
      let (y, new, ran, holds) = deep.copies h x v seen in
      (
        some (size (h ++ new)),
        new ++ S.put y ∷ [],
        pointer-ran h p x y new found ran,
        λ g same.
            let found' : read S (g ++ (new ++ S.put y ∷ [])) (size (h ++ new)) ≡ some y =
              subst (λ k. read S k (size (h ++ new)) ≡ some y) (append_assoc g new _)
                (read-put (g ++ new) (h ++ new) y (size-append g h new same)) in
            let seen' : see (g ++ (new ++ S.put y ∷ [])) y ≡ some v =
              subst (λ k. see k y ≡ some v) (append_assoc g new _)
                (deep.grows (g ++ new) (S.put y ∷ []) y v (holds g same)) in
            rw (found', seen') made,
      )

  pub IsDeep-pointer : IsDeep (see_pointer S see) (copy_pointer S into)
  IsDeep-pointer = record { grows = pointer-grows; copies = pointer-copies }

module _ {Cell T V : Type 0} {see : List Cell → T → Option V} {into : T → M Cell T}
    (deep : IsDeep see into) where
  each-grows :
      (h more : List Cell) (xs : List T) (vs : List V)
      → see_each see h xs ≡ some vs
      → see_each see (h ++ more) xs ≡ some vs
  unfolding see_each
  each-grows h more [] vs e = e
  each-grows h more (x ∷ xs) vs e =
      let (v, seen, e') = bind-eq-some (see h x) _ vs e in
      let (us, seen', made) = bind-eq-some (see_each see h xs) _ vs e' in
      rw (deep.grows h more x v seen, each-grows h more xs us seen') made

  each-ran :
      (h : List Cell) (x : T) (xs : List T) (y : T) (ys : List T) (new more : List Cell)
      → into x h ≡ some (y, h ++ new)
      → copy_each into xs (h ++ new) ≡ some (ys, (h ++ new) ++ more)
      → copy_each into (x ∷ xs) h ≡ some (y ∷ ys, h ++ (new ++ more))
  unfolding copy_each
  each-ran h x xs y ys new more ran ran' =
      rw (ran, ran', copy_each) (ap (λ k. some (y ∷ ys, k)) (append_assoc h new more))

  each-copies :
      (h : List Cell) (xs : List T) (vs : List V)
      → see_each see h xs ≡ some vs
      → (ys : List T) × (new : List Cell) × (copy_each into xs h ≡ some (ys, h ++ new))
        × ((g : List Cell) → size g ≡ size h → see_each see (g ++ new) ys ≡ some vs)
  unfolding see_each copy_each
  each-copies h [] vs e = ([], [], ap (λ k. some ([], k)) (sym (append-nil h)), λ g same. e)
  each-copies h (x ∷ xs) vs e =
      let (v, seen, e') = bind-eq-some (see h x) _ vs e in
      let (us, seen', made) = bind-eq-some (see_each see h xs) _ vs e' in
      let (y, new, ran, holds) = deep.copies h x v seen in
      let (ys, more, ran', holds') = each-copies (h ++ new) xs us (each-grows h new xs us seen') in
      (
        y ∷ ys,
        new ++ more,
        each-ran h x xs y ys new more ran ran',
        λ g same.
            let first : see (g ++ (new ++ more)) y ≡ some v =
              subst (λ k. see k y ≡ some v) (append_assoc g new more)
                (deep.grows (g ++ new) more y v (holds g same)) in
            let others : see_each see (g ++ (new ++ more)) ys ≡ some us =
              subst (λ k. see_each see k ys ≡ some us) (append_assoc g new more)
                (holds' (g ++ new) (size-append g h new same)) in
            rw (first, others) made,
      )

  pub IsDeep-each : IsDeep (see_each see) (copy_each into)
  IsDeep-each = record { grows = each-grows; copies = each-copies }
