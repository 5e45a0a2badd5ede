-- ===== src/Platform.antt =====
-- What the operator calls and does not implement: apimachinery's quantities, times, conditions and
-- owner references, the hash of crypto/sha256 and the quoting of strconv. The model takes them as
-- a parameter.
use bruk.Prelude.{ℕ, String, Bool, List}
use bruk.Prelude.Int.{ℤ}
use bruk.Result.{Result}
use bruk.Kube.Condition.{Condition}

pub record Platform : Type 1 where
  -- `resource.Quantity`, `resource.NewQuantity(n, DecimalSI)` and `resource.MustParse`.
  pub Quantity : Type 0
  pub new_quantity : ℤ → Quantity
  pub must_parse : String → Quantity
  -- `metav1.Time`, its zero value, `Equal` and `Before`.
  pub Time : Type 0
  pub zero_time : Time
  pub time_equal : Time → Time → Bool
  pub time_before : Time → Time → Bool
  -- `metav1.OwnerReference`. `SetControllerReference` reads the owner's name, namespace and UID and
  -- the object's namespace, and adds to its references; `IsControlledBy` compares UIDs.
  pub OwnerReference : Type 0
  pub set_controller_reference :
      (owner_name owner_namespace owner_uid namespace : String)
      → List OwnerReference
      → Result (List OwnerReference)
  pub is_controlled_by : List OwnerReference → String → Bool
  -- `meta.SetStatusCondition`, but for the transition time that it keeps.
  pub set_status_condition : List Condition → Condition → List Condition
  -- `strconv.Quote`, as `%q` applies it, and the bytes of `sha256.Sum256`.
  pub quote : String → String
  pub sha256 : String → List ℕ
