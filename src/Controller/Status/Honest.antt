-- ===== src/Controller/Status/Honest.antt =====
-- What a status says after it has been written.
use bruk.Prelude.{String, Bool, true, false, List, [], ◌∷◌, some, arith, ◌≡◌, ◌↔◌, refl}
use bruk.Prelude.{str_eq, str_eq_iff, if◌then◌else◌, Any, here, there, Bool-cases, inl, inr, ◌&&◌}
use bruk.Platform.{Platform}
use bruk.Kube.Condition.{Condition, ConditionStatus, condition_true, condition_false}
use bruk.Kube.Condition.{find_status_condition, condition_status, is_condition_true}
use bruk.Kube.Workload.{DeploymentCondition, Deployment}
use bruk.Api.BrukModel.{BrukModel}
use bruk.Api.InferenceService.{InferenceService}
use bruk.Api.InferenceService.Names.{
  condition_configured, condition_workload_available, condition_ready, condition_progressing,
}
use bruk.Render.{Config}
use bruk.Controller.Status.{conditions_available, deployment_available, set_condition}
use bruk.Controller.Status.{failed_status, availability_status, ready_status}

-- `SetStatusCondition` replaces or adds the condition of its type and leaves the others.
pub record KeepsConditions (K : Platform) : Type 0 where
  pub find-set :
      (cs : List Condition) (c : Condition) (t : String)
      → find_status_condition (K.set_status_condition cs c) t
        ≡ (if str_eq c.type t then some c else find_status_condition cs t)

abbrev pub shows : {K : Platform} → InferenceService K → String → ConditionStatus
shows isvc t = condition_status isvc.status.conditions t

-- Ready stands for Configured and WorkloadAvailable, and the status is of the current generation.
module _ {K : Platform} where
  pub record IsHonest (isvc : InferenceService K) : Type 0 where
    pub ready_iff : (shows isvc condition_ready ≡ condition_true) ↔ (
        (shows isvc condition_configured ≡ condition_true)
        × (shows isvc condition_workload_available ≡ condition_true))
    pub observed : isvc.status.observed_generation ≡ isvc.metadata.generation

-- Some condition says that the Deployment is available.
abbrev pub IsAvailable : List DeploymentCondition → Type 0
IsAvailable = Any (λ c. (c.type ≡ "Available") × (c.status ≡ condition_true))

is_condition_true_iff : (s : ConditionStatus) → (is_condition_true s ≡ true) ↔ (s ≡ condition_true)
is_condition_true_iff s = ground arith

conditions_available_sound :
    (cs : List DeploymentCondition) → conditions_available cs ≡ true → IsAvailable cs
unfolding conditions_available
conditions_available_sound [] h = cc
conditions_available_sound (c ∷ cs) h =
    elim (Bool-cases (str_eq c.type "Available" && is_condition_true c.status)) [
      | inl this ↦ here (ground (arith, str_eq_iff c.type "Available"))
      | inr other ↦ there (conditions_available_sound cs (ground arith))
    ]

conditions_available_complete :
    {cs : List DeploymentCondition} → IsAvailable cs → conditions_available cs ≡ true
unfolding conditions_available
conditions_available_complete (here {x = c} (e, f)) = ground (arith, str_eq_iff c.type "Available")
conditions_available_complete (there {x = c} {xs = cs} m) =
    ground (arith, conditions_available_complete m)

module _ {K : Platform} (law : KeepsConditions K) where
  failed_status-shows :
      (isvc : InferenceService K) (reason message : String)
      → let f = failed_status K isvc reason message in
        (shows f condition_configured ≡ condition_false)
        × (shows f condition_ready ≡ condition_false)
        × (shows f condition_progressing ≡ condition_false)
        × (shows f condition_workload_available ≡ shows isvc condition_workload_available)
  unfolding failed_status str_eq
  failed_status-shows isvc reason message =
      (simp law.find-set, simp law.find-set, simp law.find-set, simp law.find-set)

  abbrev pub IsShown : InferenceService K → Bool → Type 0
  IsShown r available =
      (shows r condition_configured ≡ condition_true)
      × (shows r condition_workload_available
          ≡ (if available then condition_true else condition_false))
      × (shows r condition_ready ≡ (if available then condition_true else condition_false))
      × (shows r condition_progressing ≡ (if available then condition_false else condition_true))

  availability_status-shows :
      (isvc : InferenceService K) (available : Bool)
      → shows isvc condition_configured ≡ condition_true
      → IsShown (availability_status K isvc available) available
  unfolding availability_status str_eq
  availability_status-shows isvc true e =
      (simp law.find-set e, simp law.find-set, simp law.find-set, simp law.find-set)
  availability_status-shows isvc false e =
      (simp law.find-set e, simp law.find-set, simp law.find-set, simp law.find-set)

  pub ready_status-shows :
      (isvc : InferenceService K) (model : BrukModel K) (d : Deployment K) (cfg : Config)
      → IsShown (ready_status K isvc model d cfg) (deployment_available K d)
  unfolding ready_status
  ready_status-shows isvc model d cfg =
      availability_status-shows _ (deployment_available K d) configured
    where
      configured :
          shows
            (set_condition K isvc condition_configured condition_true condition_configured
              "workload rendered and applied")
            condition_configured
          ≡ condition_true
      configured = unfold str_eq in simp law.find-set

  -- If SetStatusCondition replaces or adds the condition of its type and leaves the others, a
  -- failure is written as Configured, Ready and Progressing all False, with WorkloadAvailable as
  -- it was, and the status is honest: Ready stands for Configured and WorkloadAvailable.
  pub failed_status-IsHonest :
      (isvc : InferenceService K) (reason message : String)
      → IsHonest (failed_status K isvc reason message)
        × (shows (failed_status K isvc reason message) condition_configured ≡ condition_false)
        × (shows (failed_status K isvc reason message) condition_progressing ≡ condition_false)
        × (shows (failed_status K isvc reason message) condition_workload_available
            ≡ shows isvc condition_workload_available)
  failed_status-IsHonest isvc reason message =
      let (configured, ready, progressing, workload) = failed_status-shows isvc reason message in
      (
        record { ready_iff = (λ r. cc, λ (c, _). cc); observed = unfold failed_status in refl },
        configured,
        progressing,
        workload,
      )

  -- If SetStatusCondition replaces or adds the condition of its type and leaves the others, the
  -- status after an applied rollout is honest, Ready is True exactly if the Deployment that the
  -- server handed back has an Available condition that is True, and Progressing exactly if not.
  pub ready_status-IsHonest :
      (isvc : InferenceService K) (model : BrukModel K) (d : Deployment K) (cfg : Config)
      → let r = ready_status K isvc model d cfg in
        IsHonest r
        × ((shows r condition_ready ≡ condition_true) ↔ IsAvailable d.conditions)
        × ((shows r condition_progressing ≡ condition_true) ↔ ¬ (IsAvailable d.conditions))
  unfolding deployment_available
  ready_status-IsHonest isvc model d cfg =
      let (configured, workload, ready, progressing) = ready_status-shows isvc model d cfg in
      let sound = conditions_available_sound d.conditions in
      let complete : IsAvailable d.conditions → conditions_available d.conditions ≡ true =
        λ m. conditions_available_complete m in
      (
        record { ready_iff = ground arith; observed = unfold ready_status in refl },
        (λ r. sound (ground arith), λ m. ground (arith, complete m)),
        (
          λ p m. ground (arith, complete m),
          λ n. elim (Bool-cases (conditions_available d.conditions)) [
            | inl is_available ↦ absurd (n (sound is_available))
            | inr pending ↦ ground arith
          ],
        ),
      )
