-- ===== src/Controller/Tenant/Admitted.antt =====
-- The pattern of `initDataB64` (operator/api/v1alpha1/bruktenant_types.go) against the texts that base64
-- makes and `validateInitData` (operator/internal/controller/bruktenant_controller.go) accepts.
use bruk.Prelude.{
  ℕ, suc, ◌/◌, ◌%◌, ◌*◌, ◌+◌, String, true, false, List, [], ◌∷◌, ◌≡◌, ◌≢◌, refl, All, arith,
}
use bruk.Prelude.{leb}
use bruk.Result.{ok}
use bruk.Base64.{codes, alphabet, encode}
use bruk.Base64.RoundTrip.{IsByte}
use bruk.Api.Patterns.{is_each, is_some_of, is_blob_char, is_blob_text}
use bruk.Controller.Tenant.{has_gzip_magic, validate_init_data}
use bruk.Controller.Tenant.Magic.{validate_init_data-encode}

alphabet-is_blob_char : (v : ℕ) → is_blob_char (alphabet v) ≡ true
unfolding alphabet
alphabet-is_blob_char v = ground arith

encode-is_each : (bytes : List ℕ) → is_each is_blob_char (encode bytes) ≡ true
unfolding encode
encode-is_each [] = refl
encode-is_each (x ∷ []) =
    rw (alphabet-is_blob_char (x / 4), alphabet-is_blob_char (x % 4 * 16)) refl
encode-is_each (x ∷ y ∷ []) =
    rw
      (
        alphabet-is_blob_char (x / 4),
        alphabet-is_blob_char (x % 4 * 16 + y / 16),
        alphabet-is_blob_char (y % 16 * 4),
      )
      refl
encode-is_each (x ∷ y ∷ z ∷ bytes) =
    rw
      (
        alphabet-is_blob_char (x / 4),
        alphabet-is_blob_char (x % 4 * 16 + y / 16),
        alphabet-is_blob_char (y % 16 * 4 + z / 64),
        alphabet-is_blob_char (z % 64),
      )
      (encode-is_each bytes)

leb_1 : (n : ℕ) → leb 1 (suc n) ≡ true
leb_1 n = ground arith

encode-is_some_of : (bytes : List ℕ) → bytes ≢ [] → is_some_of is_blob_char (encode bytes) ≡ true
unfolding encode
encode-is_some_of [] h = absurd (h refl)
encode-is_some_of (x ∷ []) h = encode-is_each (x ∷ [])
encode-is_some_of (x ∷ y ∷ []) h = encode-is_each (x ∷ y ∷ [])
encode-is_some_of (x ∷ y ∷ z ∷ bytes) h = rw leb_1 (encode-is_each (x ∷ y ∷ z ∷ bytes))

not_empty : (bs : List ℕ) → has_gzip_magic bs ≡ true → bs ≢ []
not_empty bs h empty = let no : false ≡ true = (rw empty at h) in cc

-- The encoding of bytes that begin with the magic bytes of gzip passes both gates: the API server's
-- pattern admits the text, and the reconciler's validation accepts it.
pub encode-passes :
    (blob : String) (raw : List ℕ)
    → All IsByte raw
    → codes blob ≡ encode raw
    → has_gzip_magic raw ≡ true
    → (is_blob_text blob ≡ true) × (validate_init_data blob ≡ ok tt)
unfolding is_blob_text
encode-passes blob raw bytes e magic = (
  rw e (encode-is_some_of raw (not_empty raw magic)),
  (validate_init_data-encode blob raw bytes e).1 magic,
)
