-- ===== src/DeepCopy/Memory/Structs.antt =====
-- Structs with parts that are copied by their own functions, as the DeepCopyInto of
-- operator/api/v1alpha1/zz_generated.deepcopy.go copy them: what such a struct denotes, its copy, and why the
-- copy is deep if those of the parts are.
use bruk.Prelude.{List, [], ◌∷◌, ◌++◌, Option, some, ◌≡◌, refl, sym, ◌∙◌, ap}
use mathlib.Core.List.{append_assoc, append-nil}
use mathlib.Core.Path.{subst}
use bruk.DeepCopy.Memory.{M, and_then, size}
use bruk.DeepCopy.Memory.Deep.{IsDeep, Runs, ◌>>=◌, bind-eq-some, Runs-pure, Runs-copies, Runs-then}

-- A part: how it is seen and copied, and that the copy is deep.
pub record Part (Cell : Type 0) : Type 1 where
  pub T : Type 0
  pub V : Type 0
  pub see : List Cell → T → Option V
  pub into : T → M Cell T
  pub deep : IsDeep see into

abbrev pub part :
    {Cell T V : Type 0} {see : List Cell → T → Option V} {into : T → M Cell T}
    → IsDeep see into
    → Part Cell
part {T = T} {V} {see} {into} deep = record { T = T; V = V; see = see; into = into; deep = deep }

module _ {Cell : Type 0} where
  -- The parts of a struct, and what they denote.
  abbrev pub Parts : List (Part Cell) → Type 0
  Parts [] = Unit {0}
  Parts (p ∷ ps) = p.T × Parts ps

  abbrev pub Seen : List (Part Cell) → Type 0
  Seen [] = Unit {0}
  Seen (p ∷ ps) = p.V × Seen ps

  abbrev pub see_parts :
      {W : Type 0} (ps : List (Part Cell)) → List Cell → Parts ps → (Seen ps → Option W) → Option W
  see_parts [] h xs f = f tt
  see_parts (p ∷ ps) h (x, xs) f = p.see h x >>= λ v. see_parts ps h xs (λ vs. f (v, vs))

  abbrev pub copy_parts :
      {B : Type 0} (ps : List (Part Cell)) → Parts ps → (Parts ps → M Cell B) → M Cell B
  copy_parts [] xs f = f tt
  copy_parts (p ∷ ps) (x, xs) f =
      λ h. and_then (p.into x h) (λ y. copy_parts ps xs (λ ys. f (y, ys)))

  Denotes : (ps : List (Part Cell)) → List Cell → Parts ps → Seen ps → Type 0
  Denotes [] h xs vs = Unit {0}
  Denotes (p ∷ ps) h (x, xs) (v, vs) = (p.see h x ≡ some v) × Denotes ps h xs vs

  see_parts-Denotes :
      {W : Type 0} (ps : List (Part Cell)) (h : List Cell) (xs : Parts ps) (f : Seen ps → Option W)
      (w : W)
      → see_parts ps h xs f ≡ some w
      → (vs : Seen ps) × Denotes ps h xs vs × (f vs ≡ some w)
  unfolding Denotes
  see_parts-Denotes [] h xs f w e = (tt, tt, e)
  see_parts-Denotes (p ∷ ps) h (x, xs) f w e =
      let (v, seen, rest) = bind-eq-some (p.see h x) _ w e in
      let (vs, all, last) = see_parts-Denotes ps h xs (λ vs. f (v, vs)) w rest in
      ((v, vs), (seen, all), last)

  Denotes-see_parts :
      {W : Type 0} (ps : List (Part Cell)) (h : List Cell) (xs : Parts ps) (vs : Seen ps)
      (f : Seen ps → Option W)
      → Denotes ps h xs vs
      → see_parts ps h xs f ≡ f vs
  unfolding Denotes
  Denotes-see_parts [] h xs vs f all = refl
  Denotes-see_parts (p ∷ ps) h (x, xs) (v, vs) f (seen, all) =
      rw seen (Denotes-see_parts ps h xs vs (λ vs. f (v, vs)) all)

  Denotes-grows :
      (ps : List (Part Cell)) (h more : List Cell) (xs : Parts ps) (vs : Seen ps)
      → Denotes ps h xs vs
      → Denotes ps (h ++ more) xs vs
  unfolding Denotes
  Denotes-grows [] h more xs vs all = tt
  Denotes-grows (p ∷ ps) h more (x, xs) (v, vs) (seen, all) =
      (p.deep.grows h more x v seen, Denotes-grows ps h more xs vs all)

  -- The parts are copied one after the other, and the cells of one outlast the copies of the next.
  copy_parts-Runs :
      {B : Type 0} (ps : List (Part Cell)) (h acc : List Cell) (xs : Parts ps) (vs : Seen ps)
      (f : Parts ps → M Cell B) (Q : List Cell → B → Type 0)
      → Denotes ps h xs vs
      → ((ys : Parts ps) (new : List Cell)
          → ((g : List Cell) → size g ≡ size h → Denotes ps (g ++ (acc ++ new)) ys vs)
          → Runs h (acc ++ new) (f ys) Q)
      → Runs h acc (copy_parts ps xs f) Q
  unfolding Denotes
  copy_parts-Runs [] h acc xs vs f Q all next =
      subst (λ k. Runs h k (f tt) Q) (append-nil acc) (next tt [] (λ g same. tt))
  copy_parts-Runs (p ∷ ps) h acc (x, xs) (v, vs) f Q (seen, all) next =
      Runs-then p.deep h acc x v (λ y. copy_parts ps xs (λ ys. f (y, ys))) Q seen
        (λ y new holds.
          copy_parts-Runs ps h (acc ++ new) xs vs (λ ys. f (y, ys)) Q all
            (λ ys more others.
              let same_cells = append_assoc acc new more in
              subst (λ k. Runs h k (f (y, ys)) Q) (sym same_cells)
                (next (y, ys) (new ++ more)
                  (λ g same. (
                    holds g more _ same (sym same_cells),
                    subst (λ k. Denotes ps (g ++ k) ys vs) same_cells (others g same),
                  )))))

module _ {Cell S W : Type 0} (ps : List (Part Cell)) (get : S → Parts ps) (put : S → Parts ps → S)
    (make : S → Seen ps → W) where
  -- `make` is what the struct denotes, of its own fields and what its parts denote.
  abbrev pub see_whole : List Cell → S → Option W
  see_whole h s = see_parts ps h (get s) (λ vs. some (make s vs))

  abbrev pub copy_whole : S → M Cell S
  copy_whole s = copy_parts ps (get s) (λ ys h. some (put s ys, h))

  pub IsDeep-struct :
      ((s : S) (ys : Parts ps) → get (put s ys) ≡ ys)
      → ((s : S) (ys : Parts ps) (vs : Seen ps) → make (put s ys) vs ≡ make s vs)
      → IsDeep see_whole copy_whole
  IsDeep-struct get-put make-put = record {
    grows = λ h more s w e.
        let (vs, all, made) = see_parts-Denotes ps h (get s) _ w e in
        Denotes-see_parts ps (h ++ more) (get s) vs _ (Denotes-grows ps h more (get s) vs all)
        ∙ made;
    copies = λ h s w e.
        let (vs, all, made) = see_parts-Denotes ps h (get s) _ w e in
        Runs-copies see_whole copy_whole h s w (
          copy_parts-Runs ps h [] (get s) vs (λ ys k. some (put s ys, k))
            (λ k t. see_whole k t ≡ some w) all
            (λ ys new others.
              Runs-pure h new (put s ys) (λ k t. see_whole k t ≡ some w)
                (λ g same.
                  Denotes-see_parts ps (g ++ new) (get (put s ys)) vs _
                    (subst (λ zs. Denotes ps (g ++ new) zs vs) (sym (get-put s ys)) (others g same))
                  ∙ ap some (make-put s ys vs)
                  ∙ made)));
  }
