-- ===== src/DeepCopy/Memory/Deep.antt =====
-- What a copy of operator/api/v1alpha1/zz_generated.deepcopy.go promises, and how the copies of parts make
-- up the copy of a whole.
use bruk.Prelude.{suc, List, [], ◌∷◌, ◌++◌, Option, none, some, ◌≡◌, refl, sym, ◌∙◌, ap, arith}
use mathlib.Core.List.{append_assoc, append-nil}
use mathlib.Core.Path.{subst}
use bruk.DeepCopy.Memory.{size, M, Stored, Pointer, and_then, read}

-- Options in sequence.
infixl 5 ◌>>=◌
abbrev pub ◌>>=◌ : {A B : Type 0} → Option A → (A → Option B) → Option B
none >>= f = none
some a >>= f = f a

module _ {Cell T : Type 0} (S : Stored Cell T) where
  -- What a pointer denotes.
  unfoldable pub see_pointer :
      {V : Type 0} → (List Cell → T → Option V) → List Cell → Pointer → Option (Option V)
  see_pointer see h none = some none
  see_pointer see h (some p) = do x ← read S h p; v ← see h x; some (some v)

unfoldable pub see_each :
    {Cell T V : Type 0} → (List Cell → T → Option V) → List Cell → List T → Option (List V)
see_each see h [] = some []
see_each see h (x ∷ xs) = do v ← see h x; vs ← see_each see h xs; some (v ∷ vs)

module _ {Cell T V : Type 0} (see : List Cell → T → Option V) (into : T → M Cell T) where
  -- The copy is made in new cells alone, it denotes what the original does, and goes on to do so
  -- whatever becomes of the cells that were there before; the original does whatever the new cells are.
  pub record IsDeep : Type 0 where
    pub grows : (h more : List Cell) (x : T) (v : V) → see h x ≡ some v → see (h ++ more) x ≡ some v
    pub copies :
        (h : List Cell) (x : T) (v : V)
        → see h x ≡ some v
        → (y : T) × (new : List Cell) × (into x h ≡ some (y, h ++ new))
          × ((g : List Cell) → size g ≡ size h → see (g ++ new) y ≡ some v)

-- Both steps of a sequence that ends well have ended well.
pub bind-eq-some :
    {A B : Type 0} (o : Option A) (f : A → Option B) (b : B)
    → (o >>= f) ≡ some b
    → (a : A) × (o ≡ some a) × (f a ≡ some b)
bind-eq-some none f b e = cc
bind-eq-some (some a) f b e = (a, refl, e)

module _ {Cell : Type 0} where
  pub size-append : (g h more : List Cell) → size g ≡ size h → size (g ++ more) ≡ size (h ++ more)
  size-append [] [] more e = refl
  size-append [] (c ∷ h) more e = absurd (omega (arith, e))
  size-append (c ∷ g) [] more e = absurd (omega (arith, e))
  size-append (c ∷ g) (d ∷ h) more e = ap suc (size-append g h more (omega (arith, e)))

  -- A command that has come with the cells `acc`, and only adds to them.
  pub Runs : {A : Type 0} (h acc : List Cell) → M Cell A → (List Cell → A → Type 0) → Type 0
  Runs {A} h acc m Q =
      (y : A) × (new : List Cell) × (m (h ++ acc) ≡ some (y, h ++ (acc ++ new)))
      × ((g : List Cell) → size g ≡ size h → Q (g ++ (acc ++ new)) y)

  module _ (h acc : List Cell) where
    pub Runs-pure :
        {A : Type 0} (y : A) (Q : List Cell → A → Type 0)
        → ((g : List Cell) → size g ≡ size h → Q (g ++ acc) y)
        → Runs h acc (λ k. some (y, k)) Q
    unfolding Runs
    Runs-pure y Q holds = (
      y,
      [],
      ap (λ k. some (y, h ++ k)) (sym (append-nil acc)),
      λ g e. subst (λ k. Q (g ++ k) y) (sym (append-nil acc)) (holds g e),
    )

    Runs-bind :
        {A B : Type 0} (m : M Cell A) (f : A → M Cell B) (P : List Cell → A → Type 0)
        (Q : List Cell → B → Type 0)
        → Runs h acc m P
        → ((y : A) (new : List Cell)
            → ((g : List Cell) → size g ≡ size h → P (g ++ (acc ++ new)) y)
            → Runs h (acc ++ new) (f y) Q)
        → Runs h acc (λ k. and_then (m k) f) Q
    unfolding Runs
    Runs-bind m f P Q (y, new, ran, holds) next =
        let (z, more, ran', holds') = next y new holds in
        let same = append_assoc acc new more in
        (
          z,
          new ++ more,
          rw ran (ran' ∙ ap (λ k. some (z, h ++ k)) same),
          λ g e. subst (λ k. Q (g ++ k) z) same (holds' g e),
        )

module _ {Cell T V : Type 0} {see : List Cell → T → Option V} {into : T → M Cell T}
    (deep : IsDeep see into) where
  -- The copy of a part, some time after the whole was seen, and what follows. The copy denotes what the
  -- part does, whatever cells come later.
  pub Runs-then :
      {B : Type 0} (h acc : List Cell) (x : T) (v : V) (f : T → M Cell B)
      (Q : List Cell → B → Type 0)
      → see h x ≡ some v
      → ((y : T) (new : List Cell)
          → ((g more later : List Cell)
              → size g ≡ size h
              → later ≡ (acc ++ new) ++ more
              → see (g ++ later) y ≡ some v)
          → Runs h (acc ++ new) (f y) Q)
      → Runs h acc (λ k. and_then (into x k) f) Q
  unfolding Runs
  Runs-then h acc x v f Q e next =
      let (y, new, ran, holds) = deep.copies (h ++ acc) x v (deep.grows h acc x v e) in
      Runs-bind h acc (into x) f (λ k y. see k y ≡ some v) Q
        (
          y,
          new,
          ran ∙ ap (λ k. some (y, k)) (append_assoc h acc new),
          λ g same.
              subst (λ k. see k y ≡ some v) (append_assoc g acc new)
                (holds (g ++ acc) (size-append g h acc same)),
        )
        (λ y new holds. next y new (λ g more later same e.
          subst (λ k. see (g ++ k) y ≡ some v) (sym e)
            (subst (λ k. see k y ≡ some v) (append_assoc g (acc ++ new) more)
              (deep.grows (g ++ (acc ++ new)) more y v (holds g same)))))

module _ {Cell T V : Type 0} (see : List Cell → T → Option V) (into : T → M Cell T) where
  -- The copy from its start on.
  pub Runs-copies :
      (h : List Cell) (x : T) (v : V)
      → Runs h [] (into x) (λ k y. see k y ≡ some v)
      → (y : T) × (new : List Cell) × (into x h ≡ some (y, h ++ new))
        × ((g : List Cell) → size g ≡ size h → see (g ++ new) y ≡ some v)
  unfolding Runs
  Runs-copies h x v (y, new, ran, holds) = (y, new, ap into_at (sym (append-nil h)) ∙ ran, holds)
    where
      into_at : List Cell → Option (T × List Cell)
      into_at k = into x k

-- A value without pointers denotes itself.
abbrev pub see_plain : {Cell T : Type 0} → List Cell → T → Option T
see_plain h x = some x

-- `nil` and an empty slice have the same elements.
abbrev pub elements : {V : Type 0} → Option (List V) → List V
elements none = []
elements (some vs) = vs
