-- ===== src/Controller/Conflict/Order.antt =====
-- `precedes` of operator/internal/controller/inferenceservice_controller.go as an order on services.
use Prim.Native.Nat.{ℕ}
use bruk.Prelude.{true, false, not, arith}
use bruk.Prelude.{◌≡◌, ◌≢◌, ◌⊎◌, ltb, ◌==◌, if◌then◌else◌}
use bruk.Prelude.Text.{str_lt, str_lt_asymm, str_lt_irrefl, str_lt_total, str_lt_trans}
use bruk.Platform.{Platform}
use bruk.Api.InferenceService.{InferenceService}
use bruk.Controller.Conflict.{precedes}

-- Times are instants: `Equal` and `Before` compare them.
pub record IsClock (K : Platform) : Type 0 where
  pub instant : K.Time → ℕ
  pub equal_instant : (t u : K.Time) → K.time_equal t u ≡ (instant t == instant u)
  pub before_instant : (t u : K.Time) → K.time_before t u ≡ ltb (instant t) (instant u)

module _ {K : Platform} (clock : IsClock K) where
  precedes-instant :
      (a b : InferenceService K)
      → precedes K a b ≡ (
          if not (
            clock.instant a.metadata.creation_timestamp
            == clock.instant b.metadata.creation_timestamp)
          then ltb
              (clock.instant a.metadata.creation_timestamp)
              (clock.instant b.metadata.creation_timestamp)
          else str_lt a.metadata.name b.metadata.name)
  unfolding precedes
  precedes-instant a b = rw (clock.equal_instant, clock.before_instant)

  pub precedes_asymm : (a b : InferenceService K) → precedes K a b ≡ true → precedes K b a ≡ false
  precedes_asymm a b h = ground (
    arith,
    precedes-instant a b,
    precedes-instant b a,
    str_lt_asymm a.metadata.name b.metadata.name,
  )

  pub precedes_total :
      (a b : InferenceService K)
      → a.metadata.name ≢ b.metadata.name
      → (precedes K a b ≡ true) ⊎ (precedes K b a ≡ true)
  precedes_total a b h = ground (
    arith,
    precedes-instant a b,
    precedes-instant b a,
    str_lt_total a.metadata.name b.metadata.name h,
  )

  pub precedes_trans :
      (a b c : InferenceService K)
      → precedes K a b ≡ true
      → precedes K b c ≡ true
      → precedes K a c ≡ true
  precedes_trans a b c h k = ground (
    arith,
    precedes-instant a b,
    precedes-instant b c,
    precedes-instant a c,
    str_lt_trans a.metadata.name b.metadata.name c.metadata.name,
  )

  pub precedes_irrefl : (a : InferenceService K) → precedes K a a ≡ false
  precedes_irrefl a = ground (arith, precedes-instant a a, str_lt_irrefl a.metadata.name)
