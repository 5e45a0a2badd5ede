-- ===== src/Controller/Tenant/Magic.antt =====
-- Which blobs `validateInitData` accepts.
use bruk.Prelude.{ℕ, String, true, List}
use bruk.Prelude.{◌≡◌, ◌↔◌, All, arith}
use bruk.Result.{ok}
use bruk.Base64.{codes}
use bruk.Base64.{decode_string, encode}
use bruk.Base64.RoundTrip.{IsByte, decode_from-encode}
use bruk.Controller.Tenant.{has_gzip_magic, validate_init_data}

-- The encoding of a list of bytes is accepted exactly if the list begins with the two magic bytes of
-- gzip.
pub validate_init_data-encode :
    (blob : String) (raw : List ℕ)
    → All IsByte raw
    → codes blob ≡ encode raw
    → (validate_init_data blob ≡ ok tt) ↔ (has_gzip_magic raw ≡ true)
unfolding validate_init_data decode_string
validate_init_data-encode blob raw bytes e = rw (e, decode_from-encode 0 raw bytes) (ground arith)
