-- ===== src/Api/Patterns.antt =====
-- The regular expressions of the `+kubebuilder:validation:Pattern` markers (operator/api/v1alpha1), each
-- as a test of its own on the code points of a text.
use bruk.Prelude.{ℕ, suc, String, Bool, true, false, not, ◌&&◌, ◌||◌, List, [], ◌∷◌}
use bruk.Prelude.{leb, ◌==◌, if◌then◌else◌}
use bruk.Base64.{codes}

abbrev pub size : List ℕ → ℕ
size [] = 0
size (c ∷ cs) = suc (size cs)

abbrev pub is_each : (ℕ → Bool) → List ℕ → Bool
is_each test [] = true
is_each test (c ∷ cs) = test c && is_each test cs

abbrev pub is_some_of : (ℕ → Bool) → List ℕ → Bool
is_some_of test cs = leb 1 (size cs) && is_each test cs

abbrev pub is_upper : ℕ → Bool
is_upper c = leb b'A' c && leb c b'Z'

abbrev pub is_lower : ℕ → Bool
is_lower c = leb b'a' c && leb c b'z'

abbrev pub is_digit : ℕ → Bool
is_digit c = leb b'0' c && leb c b'9'

-- `[._-]`
abbrev is_joiner : ℕ → Bool
is_joiner c = c == b'.' || c == b'_' || c == b'-'

-- The text before the first mark fits, the mark is there, and the text after it fits.
abbrev parts : ℕ → (ℕ → Bool) → (List ℕ → Bool) → List ℕ → Bool
parts mark head tail [] = false
parts mark head tail (c ∷ cs) =
    let rest = parts mark head tail cs in if c == mark then tail cs else head c && rest

abbrev starts_with : List ℕ → (List ℕ → Bool) → List ℕ → Bool
starts_with [] tail cs = tail cs
starts_with (p ∷ ps) tail [] = false
starts_with (p ∷ ps) tail (c ∷ cs) = c == p && starts_with ps tail cs

-- `[a-f0-9]{64}`
abbrev is_digest : List ℕ → Bool
is_digest cs = size cs == 64 && is_each (λ c. is_digit c || leb b'a' c && leb c b'f') cs

-- `^[^@]+@sha256:[a-f0-9]{64}$`
unfoldable pub is_pinned_image : String → Bool
is_pinned_image s =
    let cs = codes s in
    not (starts_with (b'@' ∷ []) (λ rest. true) cs)
    && parts b'@' (λ c. true) (starts_with (codes "sha256:") is_digest) cs

-- `[A-Za-z0-9+/=]`
abbrev pub is_blob_char : ℕ → Bool
is_blob_char c = is_upper c || is_lower c || is_digit c || c == b'+' || c == b'/' || c == b'='

-- `^[A-Za-z0-9+/=]+$`
unfoldable pub is_blob_text : String → Bool
is_blob_text s = is_some_of is_blob_char (codes s)

-- `^[A-Za-z0-9._-]+/[A-Za-z0-9._-]+$`
unfoldable pub is_repository : String → Bool
is_repository s =
    let is_name : ℕ → Bool = λ c. is_upper c || is_lower c || is_digit c || is_joiner c in
    not (starts_with (b'/' ∷ []) (λ rest. true) (codes s))
    && parts b'/' is_name (is_some_of is_name) (codes s)

-- The last code point of a text passes a test, as the first does.
abbrev ends : (ℕ → Bool) → ℕ → List ℕ → Bool
ends test c [] = test c
ends test c (d ∷ ds) = ends test d ds

abbrev both_ends : (ℕ → Bool) → List ℕ → Bool
both_ends test [] = false
both_ends test (c ∷ cs) = test c && ends test c cs

-- `^[a-z0-9]([a-z0-9._-]*[a-z0-9])?$`
unfoldable pub is_served_name : String → Bool
is_served_name s =
    let is_plain : ℕ → Bool = λ c. is_lower c || is_digit c in
    both_ends is_plain (codes s) && is_each (λ c. is_plain c || is_joiner c) (codes s)

-- `^[0-9]+(\.[0-9]+)?$`
unfoldable pub is_price : String → Bool
is_price s =
    is_some_of is_digit (codes s)
    || (not (starts_with (b'.' ∷ []) (λ rest. true) (codes s))
        && parts b'.' is_digit (is_some_of is_digit) (codes s))
