-- ===== src/Fmt/RoundTrip.antt =====
-- Printing a number and reading it back.
use bruk.Prelude.{ℕ, zero, suc, ◌+◌, ◌*◌, ◌/◌, ◌%◌, ◌<◌, ◌≡◌, refl, sym, ap, ◌∙◌, List, [], ◌∷◌}
use bruk.Prelude.{◌++◌, All, arith, ltb, Bool-cases, ltb→lt, inl, inr}
use Prim.Native.Char.{code}
use Prim.Native.String as Str
use bruk.Prelude.{String, ◌<>◌, ◌≢◌, Bool, true, ◌&&◌, ◌==◌, holds_under, holds_under_sound}
use bruk.Prelude.Int.{ℤ, pos, negsuc}
use text.Mathlib.TextLemmas.{append_cancel_left, cons-append}
use bruk.Fmt.{digit_char, text_of_digits, digits, decimal, value_from, digits_of_text, read_decimal}
use bruk.Fmt.{format_d, format_02d}

code-digit_char : (d : ℕ) → d < 10 → code (digit_char d) ≡ d + 48
unfolding digit_char
code-digit_char zero h = refl
code-digit_char (suc zero) h = refl
code-digit_char (suc (suc zero)) h = refl
code-digit_char (suc (suc (suc zero))) h = refl
code-digit_char (suc (suc (suc (suc zero)))) h = refl
code-digit_char (suc (suc (suc (suc (suc zero))))) h = refl
code-digit_char (suc (suc (suc (suc (suc (suc zero)))))) h = refl
code-digit_char (suc (suc (suc (suc (suc (suc (suc zero))))))) h = refl
code-digit_char (suc (suc (suc (suc (suc (suc (suc (suc zero)))))))) h = refl
code-digit_char (suc (suc (suc (suc (suc (suc (suc (suc (suc zero))))))))) h = refl
code-digit_char (suc (suc (suc (suc (suc (suc (suc (suc (suc (suc d)))))))))) h = omega arith

abbrev IsDigit : ℕ → Type 0
IsDigit d = d < 10

digits_of_text-text_of_digits :
    (ds : List ℕ) → All IsDigit ds → digits_of_text (text_of_digits ds) ≡ ds
unfolding text_of_digits
digits_of_text-text_of_digits [] h = refl
digits_of_text-text_of_digits (d ∷ ds) (h, hs) =
    rw (code-digit_char d h, digits_of_text-text_of_digits ds hs) (ap (λ x. x ∷ ds) (omega arith))

All-snoc : (ds : List ℕ) (d : ℕ) → All IsDigit ds → d < 10 → All IsDigit (ds ++ d ∷ [])
All-snoc [] d h k = (k, tt)
All-snoc (x ∷ ds) d (p, h) k = (p, All-snoc ds d h k)

digits-IsDigit : (f n : ℕ) → All IsDigit (digits f n)
unfolding digits
digits-IsDigit zero n = tt
digits-IsDigit (suc f) n = elim (Bool-cases (ltb n 10)) [
  | inl small ↦ rw small (ltb→lt n 10 small, tt)
  | inr big ↦
      rw big (All-snoc (digits f (n / 10)) (n % 10) (digits-IsDigit f (n / 10)) (omega arith))
]

value_from-snoc :
    (acc d : ℕ) (ds : List ℕ) → value_from acc (ds ++ d ∷ []) ≡ value_from acc ds * 10 + d
value_from-snoc acc d [] = refl
value_from-snoc acc d (x ∷ ds) = value_from-snoc (acc * 10 + x) d ds

value-digits : (f n : ℕ) → n < f → value_from 0 (digits f n) ≡ n
unfolding digits
value-digits zero n h = elim h [ ]
value-digits (suc f) n h = elim (Bool-cases (ltb n 10)) [
  | inl small ↦ rw small (omega arith)
  | inr big ↦ rw big (
      value_from-snoc 0 (n % 10) (digits f (n / 10))
      ∙ omega (arith, value-digits f (n / 10) (ground arith)))
]

pub read_decimal-decimal : (n : ℕ) → read_decimal (decimal n) ≡ n
unfolding decimal
read_decimal-decimal n =
    ap (value_from 0) (digits_of_text-text_of_digits (digits (suc n) n) (digits-IsDigit (suc n) n))
    ∙ value-digits (suc n) n (omega arith)

pub decimal-injective : (m n : ℕ) → decimal m ≡ decimal n → m ≡ n
decimal-injective m n e = sym (read_decimal-decimal m) ∙ ap read_decimal e ∙ read_decimal-decimal n

abbrev first_code : String → ℕ
first_code Str.String.[] = 0
first_code (Str.String.◌∷◌ c s) = code c

first_code-ne-minus : (ds : List ℕ) → All IsDigit ds → first_code (text_of_digits ds) ≢ 45
unfolding text_of_digits
first_code-ne-minus [] h = omega arith
first_code-ne-minus (d ∷ ds) (h, _) = omega (arith, code-digit_char d h)

decimal-ne-minus : (n : ℕ) (s : String) → decimal n ≢ "-" <> s
unfolding decimal
decimal-ne-minus n s e =
    first_code-ne-minus (digits (suc n) n) (digits-IsDigit (suc n) n)
      (ap first_code e ∙ rw cons-append)

-- `%d` prints different integers differently.
pub format_d-injective : (a b : ℤ) → format_d a ≡ format_d b → a ≡ b
unfolding format_d
format_d-injective (pos m) (pos n) e = ap pos (decimal-injective m n e)
format_d-injective (pos m) (negsuc n) e = absurd (decimal-ne-minus m (decimal (suc n)) e)
format_d-injective (negsuc m) (pos n) e = absurd (decimal-ne-minus n (decimal (suc m)) (sym e))
format_d-injective (negsuc m) (negsuc n) e =
    ap negsuc (omega (arith, decimal-injective (suc m) (suc n) (append_cancel_left "-" _ _ e)))

two_places : ℕ → Bool
two_places p = Str.count (format_02d (pos p)) == 2 && read_decimal (format_02d (pos p)) == p

two_places_table : holds_under two_places 100 ≡ true
unfolding two_places format_02d decimal holds_under
two_places_table = refl

-- `%02d` of a number below 100 has two digits, and they read back as the number.
pub format_02d_reads :
    (p : ℕ)
    → p < 100
    → (Str.count (format_02d (pos p)) ≡ 2) × (read_decimal (format_02d (pos p)) ≡ p)
unfolding two_places
format_02d_reads p h = ground (arith, holds_under_sound two_places 100 two_places_table p h)
