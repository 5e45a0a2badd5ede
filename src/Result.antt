-- ===== src/Result.antt =====
-- Go's `error` values and `(T, error)` results.
use bruk.Prelude.{Bool, true, false, String, ◌<>◌}

-- An API error that `apierrors.IsNotFound` recognises, any other error by its text, and
-- `fmt.Errorf("text%w", err)`, which keeps the error that it wraps.
pub data Error : Type 0 where
  not_found : String → Error
  failure : String → Error
  wrapped : String → Error → Error

-- `apierrors.IsNotFound` looks through wrapping.
unfoldable pub is_not_found : Error → Bool
is_not_found (not_found text) = true
is_not_found (failure text) = false
is_not_found (wrapped text e) = is_not_found e

-- `err.Error()`
pub error_text : Error → String
error_text (not_found text) = text
error_text (failure text) = text
error_text (wrapped text e) = text <> error_text e

pub data Result {ℓ} (A : Type ℓ) : Type ℓ where
  ok : A → Result A
  err : Error → Result A

infixl 5 ◌>>=◌
abbrev pub ◌>>=◌ {ℓ κ} : {A : Type ℓ} {B : Type κ} → Result A → (A → Result B) → Result B
r >>= continue = elim r [ ok answer ↦ continue answer | err e ↦ err e ]
