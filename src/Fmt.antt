-- ===== src/Fmt.antt =====
-- What the operator uses of fmt and encoding/hex: `%d`, `%02d` and `EncodeToString`, with the
-- readers that the round trips are stated by.
pub mod RoundTrip
use Prim.Native.Char.{Char, code}
use Prim.Native.String as Str
use bruk.Prelude.{ℕ, zero, suc, ◌+◌, ◌-◌, ◌*◌, ◌/◌, ◌%◌, String, ◌<>◌, List, [], ◌∷◌, ◌++◌}
use bruk.Prelude.{ltb, if◌then◌else◌}
use bruk.Prelude.Int.{ℤ, pos, negsuc}

-- The characters of the digits below 16.
abbrev pub char_or : Char → String → ℕ → Char
char_or d Str.String.[] n = d
char_or d (Str.String.◌∷◌ c s) zero = c
char_or d (Str.String.◌∷◌ c s) (suc n) = char_or d s n

pub digit_char : ℕ → Char
digit_char d = char_or "?" "0123456789abcdef" d

unfoldable pub text_of_digits : List ℕ → String
text_of_digits [] = ""
text_of_digits (d ∷ ds) = Str.String.◌∷◌ (digit_char d) (text_of_digits ds)

-- The decimal digits of a number, the first one first; the fuel is above the number.
pub digits : ℕ → ℕ → List ℕ
digits zero n = []
digits (suc f) n = let rest = digits f (n / 10) in if ltb n 10 then n ∷ [] else rest ++ n % 10 ∷ []

pub decimal : ℕ → String
unfolding text_of_digits digits digit_char
decimal n = text_of_digits (digits (suc n) n)

-- `%d`
pub format_d : ℤ → String
format_d (pos n) = decimal n
format_d (negsuc n) = "-" <> decimal (suc n)

-- `%02d`: zeros up to two places, the sign among them.
pub format_02d : ℤ → String
format_02d (pos n) = if ltb n 10 then "0" <> decimal n else decimal n
format_02d (negsuc n) = "-" <> decimal (suc n)

-- Bytes as pairs of hexadecimal digits.
unfoldable pub hex_digits : List ℕ → List ℕ
hex_digits [] = []
hex_digits (b ∷ bs) = b / 16 ∷ b % 16 ∷ hex_digits bs

-- `hex.EncodeToString`
unfoldable pub hex_encode : List ℕ → String
unfolding text_of_digits hex_digits digit_char
hex_encode bytes = text_of_digits (hex_digits bytes)

-- `s[:n]` of an ASCII text; Go panics where the text is shorter.
unfoldable pub take_text : ℕ → String → String
take_text zero s = ""
take_text (suc n) Str.String.[] = ""
take_text (suc n) (Str.String.◌∷◌ c s) = Str.String.◌∷◌ c (take_text n s)

-- The readers.
abbrev pub value_from : ℕ → List ℕ → ℕ
value_from acc [] = acc
value_from acc (d ∷ ds) = value_from (acc * 10 + d) ds

abbrev pub digits_of_text : String → List ℕ
digits_of_text Str.String.[] = []
digits_of_text (Str.String.◌∷◌ c s) = (code c - 48) ∷ digits_of_text s

abbrev pub read_decimal : String → ℕ
read_decimal s = value_from 0 (digits_of_text s)
