-- ===== src/DeepCopy/Memory.antt =====
-- The memory on which the copies of operator/api/v1alpha1/zz_generated.deepcopy.go work: a list of cells,
-- an address for each position, and new cells at its end. A slice is a pointer to its whole array.
pub mod Deep
pub mod Structs
pub mod Pointers
use bruk.Prelude.{ℕ, zero, suc, List, [], ◌∷◌, ◌++◌, Option, none, some, ◌≡◌}

module _ {Cell : Type 0} where
  abbrev pub cell_at : List Cell → ℕ → Option Cell
  cell_at [] n = none
  cell_at (c ∷ cs) zero = some c
  cell_at (c ∷ cs) (suc n) = cell_at cs n

  abbrev pub size : List Cell → ℕ
  size [] = 0
  size (c ∷ cs) = suc (size cs)

-- `none` is the fault of a pointer that leads nowhere, or to a cell of another type.
abbrev pub M : Type 0 → Type 0 → Type 0
M Cell A = List Cell → Option (A × List Cell)

module _ {Cell A B : Type 0} where
  abbrev pub and_then : Option (A × List Cell) → (A → M Cell B) → Option (B × List Cell)
  and_then none f = none
  and_then (some (a, h)) f = f a h

  infixl 5 ◌>>=◌
  abbrev pub ◌>>=◌ : M Cell A → (A → M Cell B) → M Cell B
  ◌>>=◌ m f h = and_then (m h) f

abbrev pub pure : {Cell A : Type 0} → A → M Cell A
pure a h = some (a, h)

-- How the values of a type stand in a cell.
pub record Stored (Cell T : Type 0) : Type 0 where
  pub put : T → Cell
  pub take : Cell → Option T
  pub take-put : (x : T) → take (put x) ≡ some x

-- `nil` is `none`.
abbrev pub Pointer : Type 0
Pointer = Option ℕ

module _ {Cell T : Type 0} (S : Stored Cell T) where
  abbrev taken : Option Cell → Option T
  taken none = none
  taken (some c) = S.take c

  unfoldable pub read : List Cell → ℕ → Option T
  read h p = taken (cell_at h p)

  abbrev beside : Option T → List Cell → Option (T × List Cell)
  beside none h = none
  beside (some x) h = some (x, h)

  -- `*p`
  abbrev pub load : ℕ → M Cell T
  load p h = beside (read h p) h

  -- `new` or `make`, with what is stored there afterwards.
  abbrev pub alloc : T → M Cell ℕ
  alloc x h = some (size h, h ++ S.put x ∷ [])

  -- `nil` is copied as `nil`; anything else by the function, into a new cell.
  pub copy_pointer : (T → M Cell T) → Pointer → M Cell Pointer
  copy_pointer into none = pure none
  copy_pointer into (some p) = do x ← load p; y ← into x; q ← alloc y; pure (some q)

-- The loop over the elements of a slice.
pub copy_each : {Cell T : Type 0} → (T → M Cell T) → List T → M Cell (List T)
copy_each into [] = pure []
copy_each into (x ∷ xs) = do y ← into x; ys ← copy_each into xs; pure (y ∷ ys)
