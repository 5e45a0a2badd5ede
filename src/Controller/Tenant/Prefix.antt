-- ===== src/Controller/Tenant/Prefix.antt =====
-- How the texts begin that `validateInitData` of operator/internal/controller/bruktenant_controller.go
-- accepts.
use bruk.Prelude.{ℕ, ◌+◌, ◌<◌, ◌≤◌, String, true, false, List, [], ◌∷◌, none, some}
use bruk.Prelude.{◌≡◌, ◌⊎◌, refl, sym, ap, ◌∙◌, arith, ◌==◌, if◌then◌else◌, Option-cases, inl, inr}
use bruk.Result.{Result, ok, err}
use bruk.Base64.{
  codes, sextet, is_line_end, Group, group_0, group_1, group_2, group_3, grow, corrupt,
}
use bruk.Base64.{padded, second_pad, at_end, decode_from, decode_string, byte_0, byte_1}
use bruk.Base64.RoundTrip.{decode_from-sextet}
use bruk.Controller.Tenant.{has_gzip_magic, magic_checked, validate_init_data}

-- The characters of a text but for its line ends.
abbrev pub strip : List ℕ → List ℕ
strip [] = []
strip (c ∷ cs) = if is_line_end c then strip cs else c ∷ strip cs

-- Base64 of 1f 8b begins with "H4" and a character from "s" to "v".
abbrev pub BeginsGzip : List ℕ → Type 0
BeginsGzip (a ∷ b ∷ c ∷ cs) = (a ≡ b'H') × (b ≡ b'4') × (b's' ≤ c) × (c ≤ b'v')
BeginsGzip _ = ⊥

sextet-ok : (x v : ℕ) → sextet x ≡ some v → (v < 64) × (is_line_end x ≡ false)
unfolding sextet
sextet-ok x v h = ground arith

at_end-ok :
    (pos : ℕ) (bytes raw : List ℕ) (cs : List ℕ) → at_end pos bytes cs ≡ ok raw → bytes ≡ raw
unfolding at_end
at_end-ok pos bytes raw [] h = cc
at_end-ok pos bytes raw (c ∷ cs) h = ground (arith, at_end-ok (pos + 1) bytes raw cs)

second_pad-ok :
    (pos : ℕ) (bytes raw : List ℕ) (cs : List ℕ) → second_pad pos bytes cs ≡ ok raw → bytes ≡ raw
unfolding second_pad
second_pad-ok pos bytes raw [] h = cc
second_pad-ok pos bytes raw (c ∷ cs) h =
    ground (arith, second_pad-ok (pos + 1) bytes raw cs, at_end-ok (pos + 1) bytes raw cs)

-- What the decoder makes of the next character.
abbrev Step : ℕ → Group → ℕ → List ℕ → List ℕ → Type 0
Step pos g c cs raw =
    ((v : ℕ) × (sextet c ≡ some v) × (grow g v (λ g'. decode_from (pos + 1) g' cs) ≡ ok raw))
    ⊎ ((is_line_end c ≡ true) × (decode_from (pos + 1) g cs ≡ ok raw))
    ⊎ (padded g (pos + 1) cs ≡ ok raw)

decode_from-other :
    (pos : ℕ) (g : Group) (c : ℕ) (cs : List ℕ)
    → sextet c ≡ none
    → decode_from pos g (c ∷ cs) ≡ (
        if is_line_end c
        then decode_from (pos + 1) g cs
        else if c == b'='
        then padded g (pos + 1) cs
        else corrupt pos)
unfolding decode_from
decode_from-other pos g c cs e = rw (e, decode_from)

decode_from-Step :
    (pos : ℕ) (g : Group) (c : ℕ) (cs raw : List ℕ)
    → decode_from pos g (c ∷ cs) ≡ ok raw
    → Step pos g c cs raw
decode_from-Step pos g c cs raw h = elim (Option-cases (sextet c)) [
  | inr (v, e) ↦ inl (v, e, sym (decode_from-sextet pos g c v cs e) ∙ h)
  | inl e ↦ let tail = sym (decode_from-other pos g c cs e) ∙ h in ground arith
]

-- What a decoding says of the text from a group on, if the bytes begin as gzip does.
abbrev After3 : ℕ → ℕ → ℕ → Type 0
After3 a b c = (byte_0 a b ≡ 0x1f) × (byte_1 b c ≡ 0x8b)

abbrev After2 : ℕ → ℕ → List ℕ → Type 0
After2 a b cs =
    (x : ℕ) × (c : ℕ) × (rest : List ℕ) × (strip cs ≡ x ∷ rest) × (sextet x ≡ some c) × After3 a b c

abbrev After1 : ℕ → List ℕ → Type 0
After1 a cs =
    (x : ℕ) × (b : ℕ) × (rest : List ℕ) × (strip cs ≡ x ∷ strip rest)
    × (sextet x ≡ some b)
    × After2 a b rest

abbrev After0 : List ℕ → Type 0
After0 cs =
    (x : ℕ) × (a : ℕ) × (rest : List ℕ) × (strip cs ≡ x ∷ strip rest)
    × (sextet x ≡ some a)
    × After1 a rest

grown_3 :
    (a b c v : ℕ) (r : Result (List ℕ)) (raw : List ℕ)
    → grow (group_3 a b c) v (λ g. r) ≡ ok raw
    → has_gzip_magic raw ≡ true
    → After3 a b c
grown_3 a b c v (ok bytes) raw h magic = ground arith
grown_3 a b c v (err e) raw h magic = cc

group_3-After :
    (pos a b c : ℕ) (cs raw : List ℕ)
    → decode_from pos (group_3 a b c) cs ≡ ok raw
    → has_gzip_magic raw ≡ true
    → After3 a b c
unfolding decode_from padded
group_3-After pos a b c [] raw h magic = cc
group_3-After pos a b c (x ∷ cs) raw h magic =
    elim (decode_from-Step pos (group_3 a b c) x cs raw h) [
      | inl (v, e, tail) ↦ grown_3 a b c v (decode_from (pos + 1) group_0 cs) raw tail magic
      | inr (inl (line, tail)) ↦ group_3-After (pos + 1) a b c cs raw tail magic
      | inr (inr tail) ↦
          let bytes = at_end-ok (pos + 1) (byte_0 a b ∷ byte_1 b c ∷ []) raw cs tail in ground arith
    ]

strip-line : (x : ℕ) (cs : List ℕ) → is_line_end x ≡ true → strip (x ∷ cs) ≡ strip cs
strip-line x cs e = rw e

strip-sextet : (x v : ℕ) (cs : List ℕ) → sextet x ≡ some v → strip (x ∷ cs) ≡ x ∷ strip cs
strip-sextet x v cs e = rw (sextet-ok x v e).1

group_2-After :
    (pos a b : ℕ) (cs raw : List ℕ)
    → decode_from pos (group_2 a b) cs ≡ ok raw
    → has_gzip_magic raw ≡ true
    → After2 a b cs
unfolding decode_from padded
group_2-After pos a b [] raw h magic = cc
group_2-After pos a b (x ∷ cs) raw h magic = elim (decode_from-Step pos (group_2 a b) x cs raw h) [
  | inl (v, e, tail) ↦
      (x, v, strip cs, strip-sextet x v cs e, e, group_3-After (pos + 1) a b v cs raw tail magic)
  | inr (inl (line, tail)) ↦
      let (y, v, rest, begins, e, after) = group_2-After (pos + 1) a b cs raw tail magic in
      (y, v, rest, strip-line x cs line ∙ begins, e, after)
  | inr (inr tail) ↦
      let bytes = second_pad-ok (pos + 1) (byte_0 a b ∷ []) raw cs tail in ground arith
]

group_1-After :
    (pos a : ℕ) (cs raw : List ℕ)
    → decode_from pos (group_1 a) cs ≡ ok raw
    → has_gzip_magic raw ≡ true
    → After1 a cs
unfolding decode_from padded
group_1-After pos a [] raw h magic = cc
group_1-After pos a (x ∷ cs) raw h magic = elim (decode_from-Step pos (group_1 a) x cs raw h) [
  | inl (v, e, tail) ↦
      (x, v, cs, strip-sextet x v cs e, e, group_2-After (pos + 1) a v cs raw tail magic)
  | inr (inl (line, tail)) ↦
      let (y, v, rest, begins, e, after) = group_1-After (pos + 1) a cs raw tail magic in
      (y, v, rest, strip-line x cs line ∙ begins, e, after)
  | inr (inr tail) ↦ cc
]

group_0-After :
    (pos : ℕ) (cs raw : List ℕ)
    → decode_from pos group_0 cs ≡ ok raw
    → has_gzip_magic raw ≡ true
    → After0 cs
unfolding decode_from padded
group_0-After pos [] raw h magic = ground arith
group_0-After pos (x ∷ cs) raw h magic = elim (decode_from-Step pos group_0 x cs raw h) [
  | inl (v, e, tail) ↦
      (x, v, cs, strip-sextet x v cs e, e, group_1-After (pos + 1) v cs raw tail magic)
  | inr (inl (line, tail)) ↦
      let (y, v, rest, begins, e, after) = group_0-After (pos + 1) cs raw tail magic in
      (y, v, rest, strip-line x cs line ∙ begins, e, after)
  | inr (inr tail) ↦ cc
]

magic_values :
    (a b c : ℕ) → a < 64 → b < 64 → c < 64 → After3 a b c → (a ≡ 7) × (b ≡ 56) × (44 ≤ c) × (c ≤ 47)
magic_values a b c ha hb hc (e, f) = (omega arith, omega arith, omega arith, omega arith)

characters :
    (x y z : ℕ) (c : ℕ) (rest : List ℕ)
    → sextet x ≡ some 7
    → sextet y ≡ some 56
    → sextet z ≡ some c
    → 44 ≤ c
    → c ≤ 47
    → BeginsGzip (x ∷ y ∷ z ∷ rest)
unfolding sextet
characters x y z c rest ex ey ez low high = (ground arith, ground arith, ground arith, ground arith)

magic_checked-ok :
    (r : Result (List ℕ))
    → magic_checked r ≡ ok tt
    → (raw : List ℕ) × (r ≡ ok raw) × (has_gzip_magic raw ≡ true)
magic_checked-ok (err e) h = cc
magic_checked-ok (ok raw) h = (raw, refl, ground arith)

After0-BeginsGzip : (cs : List ℕ) → After0 cs → BeginsGzip (strip cs)
After0-BeginsGzip cs (x, a, first, begins, ex, after) =
    let (y, b, second, next, ey, after_y) = after in
    let (z, c, rest, last, ez, bytes) = after_y in
    let (seven, fifty_six, low, high) =
      magic_values a b c (sextet-ok x a ex).0 (sextet-ok y b ey).0 (sextet-ok z c ez).0 bytes in
    rw (begins, next, last)
      (characters x y z c rest (ex ∙ ap some seven) (ey ∙ ap some fifty_six) ez low high)

-- Every accepted text, once its line ends are dropped, begins with "H4" and a character from "s" to
-- "v".
pub validate_init_data-BeginsGzip :
    (blob : String) → validate_init_data blob ≡ ok tt → BeginsGzip (strip (codes blob))
unfolding validate_init_data decode_string
validate_init_data-BeginsGzip blob h =
    let (raw, decoded, magic) = magic_checked-ok (decode_string blob) h in
    After0-BeginsGzip (codes blob) (group_0-After 0 (codes blob) raw decoded magic)
