-- ===== src/Kube/Condition.antt =====
-- `metav1.Condition`, as the reconcilers fill it in, and the reading of a list of conditions.
use bruk.Prelude.{String, Bool, true, false, List, [], ◌∷◌, Option, none, some}
use bruk.Prelude.{str_eq, if◌then◌else◌}
use bruk.Prelude.Int.{ℤ}

pub data ConditionStatus : Type 0 where
  condition_true condition_false condition_unknown : ConditionStatus

pub record Condition : Type 0 where
  pub type : String
  pub status : ConditionStatus
  pub reason : String
  pub message : String
  pub observed_generation : ℤ

-- The condition of a type, as `meta.FindStatusCondition` and `kubectl` read it.
unfoldable pub find_status_condition : List Condition → String → Option Condition
find_status_condition [] type = none
find_status_condition (c ∷ cs) type =
    if str_eq c.type type then some c else find_status_condition cs type

abbrev pub is_condition_true : ConditionStatus → Bool
is_condition_true condition_true = true
is_condition_true _ = false

abbrev pub status_of : Option Condition → ConditionStatus
status_of none = condition_unknown
status_of (some c) = c.status

-- The status that a list of conditions shows for a type; a missing one is unknown.
abbrev pub condition_status : List Condition → String → ConditionStatus
condition_status cs type = status_of (find_status_condition cs type)
