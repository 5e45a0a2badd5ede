-- ===== src/Base64/RoundTrip.antt =====
-- Decoding what was encoded.
use bruk.Prelude.{ℕ, ◌+◌, ◌*◌, ◌/◌, ◌%◌, ◌<◌, List, [], ◌∷◌, some, All, ◌≡◌, refl, ap, arith}
use bruk.Result.{ok}
use mathlib.Core.Path.{ap₂}
use bruk.Base64.{
  Group, group_1, group_2, group_3, grow, sextet, alphabet, encode, decode_from, group_0, padded,
}

sextet-alphabet : (v : ℕ) → v < 64 → sextet (alphabet v) ≡ some v
unfolding sextet alphabet
sextet-alphabet v h = ground arith

abbrev pub IsByte : ℕ → Type 0
IsByte b = b < 256

pub decode_from-sextet :
    (pos : ℕ) (g : Group) (c v : ℕ) (cs : List ℕ)
    → sextet c ≡ some v
    → decode_from pos g (c ∷ cs) ≡ grow g v (λ g'. decode_from (pos + 1) g' cs)
unfolding decode_from
decode_from-sextet pos g c v cs e = rw (e, decode_from)

-- A character of the alphabet is read as its value.
decode_from-alphabet :
    (pos : ℕ) (g : Group) (v : ℕ) (cs : List ℕ)
    → v < 64
    → decode_from pos g (alphabet v ∷ cs) ≡ grow g v (λ g'. decode_from (pos + 1) g' cs)
decode_from-alphabet pos g v cs h = decode_from-sextet pos g (alphabet v) v cs (sextet-alphabet v h)

decode_from-pad :
    (pos : ℕ) (g : Group) (cs : List ℕ) → decode_from pos g (b'=' ∷ cs) ≡ padded g (pos + 1) cs
unfolding decode_from sextet
decode_from-pad pos g cs = refl

-- Decoding the encoding of a list of bytes gives the list back, from every position.
pub decode_from-encode :
    (pos : ℕ) (bytes : List ℕ)
    → All IsByte bytes
    → decode_from pos group_0 (encode bytes) ≡ ok bytes
unfolding encode padded
decode_from-encode pos [] h = unfold decode_from in refl
decode_from-encode pos (x ∷ []) (hx, _) =
    rw
      (
        decode_from-alphabet pos group_0 (x / 4) _ (omega arith),
        decode_from-alphabet (pos + 1) (group_1 (x / 4)) (x % 4 * 16) _ (omega arith),
        decode_from-pad,
      )
      (ap (λ b. ok (b ∷ [])) (omega arith))
decode_from-encode pos (x ∷ y ∷ []) (hx, (hy, _)) =
    rw
      (
        decode_from-alphabet pos group_0 (x / 4) _ (omega arith),
        decode_from-alphabet (pos + 1) (group_1 (x / 4)) (x % 4 * 16 + y / 16) _ (omega arith),
        decode_from-alphabet (pos + 1 + 1) (group_2 (x / 4) (x % 4 * 16 + y / 16)) (y % 16 * 4) _
            (omega arith),
        decode_from-pad,
      )
      (ap₂ (λ b c. ok (b ∷ c ∷ [])) (omega arith) (omega arith))
decode_from-encode pos (x ∷ y ∷ z ∷ bytes) (hx, (hy, (hz, h))) =
    rw
      (
        decode_from-alphabet pos group_0 (x / 4) _ (omega arith),
        decode_from-alphabet (pos + 1) (group_1 (x / 4)) (x % 4 * 16 + y / 16) _ (omega arith),
        decode_from-alphabet (pos + 1 + 1) (group_2 (x / 4) (x % 4 * 16 + y / 16))
            (y % 16 * 4 + z / 64) _ (omega arith),
        decode_from-alphabet (pos + 1 + 1 + 1)
            (group_3 (x / 4) (x % 4 * 16 + y / 16) (y % 16 * 4 + z / 64)) (z % 64) _ (omega arith),
        decode_from-encode (pos + 1 + 1 + 1 + 1) bytes h,
      )
      (ap₃ (omega arith) (omega arith) (omega arith))
  where
    ap₃ :
        {a b c a' b' c' : ℕ}
        → a ≡ a'
        → b ≡ b'
        → c ≡ c'
        → ok (a ∷ b ∷ c ∷ bytes) ≡ ok (a' ∷ b' ∷ c' ∷ bytes)
    ap₃ p q r = cc
