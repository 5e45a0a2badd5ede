-- ===== src/Render/Hash.antt =====
-- The short hash of the initdata blob.
-- `InitDataHash` of operator/internal/render/render.go.
use Prim.Native.String as Str
use Prim.Native.String.{count}
use text.Mathlib.TextLemmas.{length-nil, length-cons}
use bruk.Prelude.{ℕ, zero, suc, ◌*◌, ◌≤◌, ◌≡◌, refl, ap, ◌∙◌, String, List, [], ◌∷◌, length, arith}
use bruk.Fmt.{text_of_digits, hex_digits, hex_encode, take_text}
use bruk.Platform.{Platform}
use bruk.Render.{init_data_hash}

count-text_of_digits : (ds : List ℕ) → count (text_of_digits ds) ≡ length ds
unfolding text_of_digits
count-text_of_digits [] = refl
count-text_of_digits (d ∷ ds) = rw length-cons (ap suc (count-text_of_digits ds))

length-hex_digits : (bs : List ℕ) → length (hex_digits bs) ≡ length bs * 2
unfolding hex_digits
length-hex_digits [] = refl
length-hex_digits (b ∷ bs) = omega (arith, length-hex_digits bs)

count-take_text : (n : ℕ) (s : String) → n ≤ count s → count (take_text n s) ≡ n
unfolding take_text
count-take_text zero s h = refl
count-take_text (suc n) Str.String.[] h = absurd (omega (arith, length-nil))
count-take_text (suc n) (Str.String.◌∷◌ c s) h =
    length-cons c (take_text n s) ∙ ap suc (count-take_text n s (omega (arith, length-cons c s)))

-- A digest of 32 bytes is shortened to 12 hexadecimal digits; the slice is never out of range.
pub count-init_data_hash :
    (K : Platform) (blob : String)
    → length (K.sha256 blob) ≡ 32
    → (12 ≤ count (hex_encode (K.sha256 blob))) × (count (init_data_hash K blob) ≡ 12)
unfolding init_data_hash hex_encode
count-init_data_hash K blob h =
    let long : 12 ≤ count (text_of_digits (hex_digits (K.sha256 blob))) = omega (
      arith,
      count-text_of_digits (hex_digits (K.sha256 blob)),
      length-hex_digits (K.sha256 blob),
    ) in
    (long, count-take_text 12 _ long)
