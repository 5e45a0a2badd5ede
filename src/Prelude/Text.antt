-- ===== src/Prelude/Text.antt =====
-- Go's `<` on strings: a strict total order.
use Prim.Native.Char.{code}
use Prim.Native.Nat.{ℕ, compare as compare_ℕ, Ordering}
use Prim.Native.String as Str
use Prim.Native.String.compare
use Prim.Native.String.{String, compare, then}
use mathlib.Core.Path.{◌≡◌, sym, ◌∙◌, ap}
use mathlib.Core.Logic.{◌≢◌, ◌⊎◌}
use mathlib.Core.Bool.{Bool, true, false}
use native.Mathlib.Omega.{arith}
use text.Mathlib.Text.{is_lt}
use text.Mathlib.TextEquality.{path_by_compare}
use text.Mathlib.TextPositions.{compare_refl}

-- Go compares strings by bytes, which for UTF-8 is the order of the code points.
pub str_lt : String → String → Bool
str_lt s t = is_lt (compare s t)

flip : Ordering → Ordering
flip Ordering.lt = Ordering.gt
flip Ordering.eq = Ordering.eq
flip Ordering.gt = Ordering.lt

flip-then : (a b : ℕ) (o : Ordering) → flip (then (compare_ℕ a b) o) ≡ then (compare_ℕ b a) (flip o)
unfolding flip
flip-then a b o = ground arith

compare-flip : (s t : String) → compare t s ≡ flip (compare s t)
unfolding flip
compare-flip Str.String.[] Str.String.[] = rw compare.nil-nil
compare-flip Str.String.[] (Str.String.◌∷◌ d t) = rw (compare.nil-cons, compare.cons-nil)
compare-flip (Str.String.◌∷◌ c s) Str.String.[] = rw (compare.nil-cons, compare.cons-nil)
compare-flip (Str.String.◌∷◌ c s) (Str.String.◌∷◌ d t) =
    compare.cons-cons d c t s
    ∙ ap (then (compare_ℕ (code d) (code c))) (compare-flip s t)
    ∙ sym (ap flip (compare.cons-cons c d s t) ∙ flip-then (code c) (code d) (compare s t))

pub str_lt_asymm : (s t : String) → str_lt s t ≡ true → str_lt t s ≡ false
unfolding str_lt flip
str_lt_asymm s t h = ground (arith, compare-flip s t)

pub str_lt_irrefl : (s : String) → str_lt s s ≡ false
unfolding str_lt
str_lt_irrefl s = rw compare_refl

pub str_lt_total : (s t : String) → s ≢ t → (str_lt s t ≡ true) ⊎ (str_lt t s ≡ true)
unfolding str_lt flip
str_lt_total s t h = ground (arith, compare-flip s t, path_by_compare s t)

pub str_lt_trans : (s t u : String) → str_lt s t ≡ true → str_lt t u ≡ true → str_lt s u ≡ true
unfolding str_lt
str_lt_trans Str.String.[] Str.String.[] u h k = ground (arith, compare.nil-nil)
str_lt_trans Str.String.[] (Str.String.◌∷◌ d t) Str.String.[] h k =
    ground (arith, compare.cons-nil d t)
str_lt_trans Str.String.[] (Str.String.◌∷◌ d t) (Str.String.◌∷◌ e u) h k = rw compare.nil-cons
str_lt_trans (Str.String.◌∷◌ c s) Str.String.[] u h k = ground (arith, compare.cons-nil c s)
str_lt_trans (Str.String.◌∷◌ c s) (Str.String.◌∷◌ d t) Str.String.[] h k =
    ground (arith, compare.cons-nil d t)
str_lt_trans (Str.String.◌∷◌ c s) (Str.String.◌∷◌ d t) (Str.String.◌∷◌ e u) h k = ground (
  arith,
  compare.cons-cons c d s t,
  compare.cons-cons d e t u,
  compare.cons-cons c e s u,
  str_lt_trans s t u,
)
