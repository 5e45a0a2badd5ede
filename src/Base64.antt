-- ===== src/Base64.antt =====
-- What the operator uses of encoding/base64: `StdEncoding.DecodeString`, which skips line ends, wants
-- the padding and names the offset of the byte that it refuses; and the encoder, as its inverse.
-- Texts are their code points: a character beyond ASCII is refused where its first byte is.
pub mod RoundTrip
use Prim.Native.Char.{code}
use Prim.Native.String as Str
use bruk.Prelude.{
  ℕ, ◌+◌, ◌-◌, ◌*◌, ◌/◌, ◌%◌, String, ◌<>◌, Bool, ◌&&◌, ◌||◌, List, [], ◌∷◌, Option, none, some,
}
use bruk.Prelude.{leb, ◌==◌, if◌then◌else◌}
use bruk.Fmt.{decimal}
use bruk.Result.{Result, ok, err, failure, ◌>>=◌}

abbrev pub codes : String → List ℕ
codes Str.String.[] = []
codes (Str.String.◌∷◌ c s) = code c ∷ codes s

-- The value of a character of the alphabet.
unfoldable pub sextet : ℕ → Option ℕ
sextet c =
    if leb b'A' c && leb c b'Z'
    then some (c - b'A')
    else if leb b'a' c && leb c b'z'
    then some (c - b'a' + 26)
    else if leb b'0' c && leb c b'9'
    then some (c - b'0' + 52)
    else if c == b'+'
    then some 62
    else if c == b'/'
    then some 63
    else none

abbrev pub is_line_end : ℕ → Bool
is_line_end c = c == 10 || c == 13

-- `CorruptInputError`
abbrev pub corrupt {ℓ} : {A : Type ℓ} → ℕ → Result A
corrupt offset = err (failure ("illegal base64 data at input byte " <> decimal offset))

-- The sextets read of the group of four at hand.
pub data Group : Type 0 where
  group_0 : Group
  group_1 : ℕ → Group
  group_2 : ℕ → ℕ → Group
  group_3 : ℕ → ℕ → ℕ → Group

abbrev pub byte_0 : ℕ → ℕ → ℕ
byte_0 a b = a * 4 + b / 16

abbrev pub byte_1 : ℕ → ℕ → ℕ
byte_1 b c = b % 16 * 16 + c / 4

abbrev pub byte_2 : ℕ → ℕ → ℕ
byte_2 c d = c % 4 * 64 + d

-- Only line ends may follow the padding; the position is of the first byte of the list.
unfoldable pub at_end : ℕ → List ℕ → List ℕ → Result (List ℕ)
at_end pos bytes [] = ok bytes
at_end pos bytes (c ∷ cs) =
    let rest = at_end (pos + 1) bytes cs in if is_line_end c then rest else corrupt pos

-- The second `=` of a group of two.
unfoldable pub second_pad : ℕ → List ℕ → List ℕ → Result (List ℕ)
unfolding at_end
second_pad pos bytes [] = corrupt pos
second_pad pos bytes (c ∷ cs) =
    let rest = second_pad (pos + 1) bytes cs in
    if is_line_end c
    then rest
    else if c == b'='
    then at_end (pos + 1) bytes cs
    else corrupt (pos - 1)

-- After a `=` at the position before.
unfoldable pub padded : Group → ℕ → List ℕ → Result (List ℕ)
unfolding at_end second_pad
padded group_0 pos cs = corrupt (pos - 1)
padded (group_1 a) pos cs = corrupt (pos - 1)
padded (group_2 a b) pos cs = second_pad pos (byte_0 a b ∷ []) cs
padded (group_3 a b c) pos cs = at_end pos (byte_0 a b ∷ byte_1 b c ∷ []) cs

-- The text has ended within a group.
abbrev pub cut_short : Group → ℕ → Result (List ℕ)
cut_short group_0 pos = ok []
cut_short (group_1 a) pos = corrupt (pos - 1)
cut_short (group_2 a b) pos = corrupt (pos - 2)
cut_short (group_3 a b c) pos = corrupt (pos - 3)

-- One sextet more, with the decoder of what follows.
abbrev pub grow : Group → ℕ → (Group → Result (List ℕ)) → Result (List ℕ)
grow group_0 v rest = rest (group_1 v)
grow (group_1 a) v rest = rest (group_2 a v)
grow (group_2 a b) v rest = rest (group_3 a b v)
grow (group_3 a b c) v rest = do
  bytes ← rest group_0
  ok (byte_0 a b ∷ byte_1 b c ∷ byte_2 c v ∷ bytes)

unfoldable pub decode_from : ℕ → Group → List ℕ → Result (List ℕ)
unfolding padded
decode_from pos g [] = cut_short g pos
decode_from pos g (c ∷ cs) = elim (sextet c) [
  | some v ↦ grow g v (λ g'. decode_from (pos + 1) g' cs)
  | none ↦
      if is_line_end c
      then decode_from (pos + 1) g cs
      else if c == b'='
      then padded g (pos + 1) cs
      else corrupt pos
]

-- `base64.StdEncoding.DecodeString`
unfoldable pub decode_string : String → Result (List ℕ)
decode_string s = decode_from 0 group_0 (codes s)

-- The character of a value below 64.
unfoldable pub alphabet : ℕ → ℕ
alphabet v =
    if leb v 25
    then v + b'A'
    else if leb v 51
    then v - 26 + b'a'
    else if leb v 61
    then v - 52 + b'0'
    else if v == 62
    then b'+'
    else b'/'

unfoldable pub encode : List ℕ → List ℕ
encode [] = []
encode (x ∷ []) = alphabet (x / 4) ∷ alphabet (x % 4 * 16) ∷ b'=' ∷ b'=' ∷ []
encode (x ∷ y ∷ []) =
    alphabet (x / 4) ∷ alphabet (x % 4 * 16 + y / 16) ∷ alphabet (y % 16 * 4) ∷ b'=' ∷ []
encode (x ∷ y ∷ z ∷ bytes) =
    alphabet (x / 4)
    ∷ alphabet (x % 4 * 16 + y / 16)
    ∷ alphabet (y % 16 * 4 + z / 64)
    ∷ alphabet (z % 64)
    ∷ encode bytes
