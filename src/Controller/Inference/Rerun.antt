-- ===== src/Controller/Inference/Rerun.antt =====
-- The runs that a service brings upon itself. `SetupWithManager` of
-- operator/internal/controller/inferenceservice_controller.go watches services without a filter, so the
-- status that `Reconcile` writes queues the service again, unless the server finds nothing changed.
use bruk.Prelude.{ℕ, zero, suc, Bool, true, List, [], ◌∷◌, Option, none, some, ◌≡◌, refl, ◌∙◌, ap}
use bruk.Prelude.{Bool-cases, inl, inr, if◌then◌else◌}
use bruk.Result.{Result, ok, err}
use bruk.Platform.{Platform}
use bruk.Kube.Meta.{NamespacedName}
use bruk.Api.InferenceService.{InferenceService, InferenceServiceStatus}
use bruk.Client
use bruk.Client.{Client, Call, World, updated_inference_service_status}
use bruk.Controller.Status.Honest.{KeepsConditions}
use bruk.Controller.Status.Settles.{KeepsSame, with_status}
use bruk.Controller.Conflict.Undisturbed.{MakesController, IsUndisturbed}
use bruk.Controller.Inference.{reconcile}
use bruk.Controller.Inference.Again.{reconcile-settles}
use bruk.Controller.Inference.Writes.{reconcile-Written}

-- The status of a service that was read.
abbrev pub status_of : {K : Platform} → Result (InferenceService K) → Option InferenceServiceStatus
status_of (ok isvc) = some isvc.status
status_of (err e) = none

-- The status that the last call of a log writes.
abbrev pub latest_status : {K : Platform} → List (Call K) → Option InferenceServiceStatus
latest_status (Client.updated_inference_service_status i ∷ log) = some i.status
latest_status _ = none

-- `unchanged` is the server's test of a status that is written against the one that it has.
module _ {K : Platform} (C : Client K) (request : NamespacedName)
    (unchanged : InferenceServiceStatus → InferenceServiceStatus → Bool) where
  -- A run that starts in a state.
  abbrev pub run_from : C.State → Result (Unit {0}) × World C
  run_from s = reconcile C request (record { state = s; log = [] })

  -- The status of the service in a state, as a read has it.
  abbrev status_in : C.State → Option InferenceServiceStatus
  status_in s = status_of (C.get_inference_service request s).0

  -- After a run: none that follows if it wrote nothing, or nothing new.
  abbrev go_on :
      Option InferenceServiceStatus
      → Option InferenceServiceStatus
      → Option InferenceServiceStatus
      → Option InferenceServiceStatus
  go_on before none next = before
  go_on none (some written) next = next
  go_on (some status) (some written) next = if unchanged status written then some written else next

  -- Runs, each in the state that the last one left, until one leaves the status as it is, on fuel.
  pub rerun : ℕ → C.State → Option InferenceServiceStatus
  rerun zero s = none
  rerun (suc fuel) s =
      let run = (run_from s).1 in
      let next = rerun fuel run.state in go_on (status_in s) (latest_status run.log) next

  module _ (reflexive : (status : InferenceServiceStatus) → unchanged status status ≡ true) where
    rerun_1 :
        (s : C.State) (status : InferenceServiceStatus)
        → status_in s ≡ some status
        → latest_status (run_from s).1.log ≡ some status
        → rerun 1 s ≡ some status
    unfolding rerun
    rerun_1 s status before last = rw (before, last, reflexive status) refl

    rerun_2 :
        (s : C.State) (status written : InferenceServiceStatus)
        → status_in s ≡ some status
        → latest_status (run_from s).1.log ≡ some written
        → status_in (run_from s).1.state ≡ some written
        → latest_status (run_from (run_from s).1.state).1.log ≡ some written
        → rerun 2 s ≡ some written
    unfolding rerun
    rerun_2 s status written before first after second =
        elim (Bool-cases (unchanged status written)) [
          | inl same ↦ rw (before, first, same) refl
          | inr other ↦
              rw (before, first, other) (rerun_1 (run_from s).1.state written after second)
        ]

-- The chain of runs that a service brings upon itself, each in the state that the one before left,
-- ends after two runs at the most, at a status that a further run would write again. That is, if the first
-- run succeeds, the server stores the status that it writes, a status is unchanged beside itself and
-- nobody else writes: the first run changes no more than the service's status, its own Deployment and
-- what that brings about, and an applied Deployment is as available as before. SetStatusCondition
-- replaces the condition of that type alone and leaves a list that has the condition as it is, and
-- SetControllerReference makes the service the controller.
pub rerun-ends :
    {K : Platform} {C : Client K}
    → KeepsConditions K
    → KeepsSame K
    → MakesController K
    → (isvc : InferenceService K) (Like : C.State → C.State → Type 0) → IsUndisturbed C isvc Like
    → (request : NamespacedName)
      (unchanged : InferenceServiceStatus → InferenceServiceStatus → Bool)
    → ((status : InferenceServiceStatus) → unchanged status status ≡ true)
    → (s : C.State)
    → let first = run_from C request unchanged s in
      (C.get_inference_service request s).0 ≡ ok isvc
      → first.0 ≡ ok tt
      → Like s first.1.state
      → ((i : InferenceService K) (rest : List (Call K))
          → first.1.log ≡ updated_inference_service_status i ∷ rest
          → (C.get_inference_service request first.1.state).0 ≡ ok (with_status isvc i.status))
      → (end : InferenceServiceStatus) × (rerun C request unchanged 2 s ≡ some end)
        × (latest_status (run_from C request unchanged first.1.state).1.log ≡ some end)
rerun-ends {K} {C} law same owning isvc Like calm request unchanged reflexive s got done like
      stored =
    let w : World C = record { state = s; log = [] } in
    let (i, rest, log, update) = reconcile-Written C request w isvc got done in
    let got' = stored i rest log in
    let v : World C = record { state = (run_from C request unchanged s).1.state; log = [] } in
    let again =
      reconcile-settles law same owning isvc i Like calm request w v rest refl like got done log
        got' in
    let second : latest_status (run_from C request unchanged v.state).1.log ≡ some i.status =
      ap latest_status (again ∙ log) in
    (
      i.status,
      rerun_2 C request unchanged reflexive s isvc.status i.status (ap status_of got)
          (ap latest_status log) (ap status_of got') second,
      second,
    )
