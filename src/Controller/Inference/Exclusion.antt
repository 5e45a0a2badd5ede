-- ===== src/Controller/Inference/Exclusion.antt =====
-- Exclusive use of the trusted stores, over the states of the server, through one run of `Reconcile`
-- (operator/internal/controller/inferenceservice_controller.go).
pub mod Applied
use bruk.Prelude.{
  String, Bool, true, false, List, [], ◌∷◌, Option, none, some, ◌≡◌, refl, sym, ◌∙◌, ap, arith,
}
use bruk.Prelude.{Bool-cases, inl, inr, str_eq, str_eq_iff}
use bruk.Prelude.Int.{ltb_ℤ}
use bruk.Result.{Result, ok, err, is_not_found}
use bruk.Platform.{Platform}
use bruk.Kube.Meta.{NamespacedName}
use bruk.Kube.Workload.{Deployment, Service, ConfigMap}
use bruk.Api.BrukModel.{BrukModel}
use bruk.Api.BrukTenant.{BrukTenant}
use bruk.Api.InferenceService.{InferenceService, object_key}
use bruk.Render.{Config, deployment, service, has_value}
use bruk.Client.{Client, World}
use bruk.Cluster.{View, IsServer, Shrinks, IsFree, IsNamed, IsExclusive}
use bruk.Cluster.Shrinks.{
  Shrinks-refl, Shrinks-trans, Shrinks-IsFree, Shrinks-IsNamed, Shrinks-IsExclusive,
}
use bruk.Controller.Conflict.{trusted_store_conflict}
use bruk.Controller.Conflict.Window.{trusted_store_conflict-Shrinks, trusted_store_conflict-IsFree}
use bruk.Controller.Inference.{
  fail_configured, update_ready_status, service_applied, service_owned, deployment_applied,
  deployment_owned, deployment_rendered, config_map_applied, apply_workload, conflict_checked,
  spec_checked, model_fetched, tenant_fetched, service_fetched, reconcile, own_deployment,
  own_service, typed_deployment, typed_service, config_of,
}
use bruk.Controller.Inference.Trace.{IsWorkload}
use bruk.Controller.Inference.Exclusion.Applied.{workload-IsOwnWorkload, apply-keeps}

module _ {K : Platform} {C : Client K} (V : View C) (server : IsServer V) where
  abbrev pub IsSafe : C.State → Type 0
  IsSafe s = IsExclusive V s × IsNamed V s

  pub Shrinks-IsSafe : {s t : C.State} → Shrinks V s t → IsSafe s → IsSafe t
  Shrinks-IsSafe p (exclusive, named) =
      (Shrinks-IsExclusive V p exclusive, Shrinks-IsNamed V p named)

  module _ (isvc : InferenceService K) where
    fail_configured-IsSafe :
        (reason message : String) (w : World C)
        → IsSafe w.state
        → IsSafe (fail_configured C isvc reason message w).1.state
    unfolding fail_configured
    fail_configured-IsSafe reason message w =
        Shrinks-IsSafe (server.update_inference_service_status_shrinks _ w.state)

    module _ (model : BrukModel K) (cfg : Config) where
      service_applied-Shrinks :
          (d : Deployment K) (r : Result (Service K)) (w : World C)
          → Shrinks V w.state (service_applied C isvc model cfg d r w).1.state
      unfolding service_applied update_ready_status
      service_applied-Shrinks d (err e) w = Shrinks-refl V _
      service_applied-Shrinks d (ok s) w = server.update_inference_service_status_shrinks _ w.state

      service_owned-Shrinks :
          (d : Deployment K) (r : Result (Service K)) (w : World C)
          → Shrinks V w.state (service_owned C isvc model cfg d r w).1.state
      unfolding service_owned
      service_owned-Shrinks d (err e) w = Shrinks-refl V _
      service_owned-Shrinks d (ok s) w =
          Shrinks-trans V (server.apply_service_shrinks s w.state) (service_applied-Shrinks d _ _)

      deployment_applied-Shrinks :
          (r : Result (Deployment K)) (w : World C)
          → Shrinks V w.state (deployment_applied C isvc model cfg r w).1.state
      unfolding deployment_applied
      deployment_applied-Shrinks (err e) w = Shrinks-refl V _
      deployment_applied-Shrinks (ok d) w = service_owned-Shrinks d _ w

      module _ (mine : V.named isvc.metadata.uid ≡ some (object_key K isvc)) where
        deployment_owned-IsSafe :
            (rendered : Deployment K) (r : Result (Deployment K)) (w : World C)
            → deployment K isvc model cfg ≡ ok rendered
            → own_deployment K isvc (typed_deployment K rendered) ≡ r
            → IsFree V isvc w.state
            → IsSafe w.state
            → IsSafe (deployment_owned C isvc model cfg r w).1.state
        unfolding deployment_owned
        deployment_owned-IsSafe rendered (err e) w render owned free safe = safe
        deployment_owned-IsSafe rendered (ok d) w render owned free safe =
            let work = workload-IsOwnWorkload isvc model cfg (rendered, render, owned) in
            Shrinks-IsSafe (deployment_applied-Shrinks _ _)
              (apply-keeps V server isvc mine d work w.state free safe)

        deployment_rendered-IsSafe :
            (r : Result (Deployment K)) (w : World C)
            → deployment K isvc model cfg ≡ r
            → IsFree V isvc w.state
            → IsSafe w.state
            → IsSafe (deployment_rendered C isvc model cfg r w).1.state
        unfolding deployment_rendered
        deployment_rendered-IsSafe (err e) w render free = fail_configured-IsSafe _ _ w
        deployment_rendered-IsSafe (ok rendered) w render free =
            deployment_owned-IsSafe rendered _ w render refl free

        config_map_applied-IsSafe :
            (r : Result (ConfigMap K)) (w : World C)
            → IsFree V isvc w.state
            → IsSafe w.state
            → IsSafe (config_map_applied C isvc model cfg r w).1.state
        unfolding config_map_applied
        config_map_applied-IsSafe (err e) w free safe = safe
        config_map_applied-IsSafe (ok c) w free safe = deployment_rendered-IsSafe _ w refl free safe

        apply_workload-IsSafe :
            (cached : Bool) (w : World C)
            → IsFree V isvc w.state
            → IsSafe w.state
            → IsSafe (apply_workload C isvc model cfg cached w).1.state
        unfolding apply_workload
        apply_workload-IsSafe false w free safe = deployment_rendered-IsSafe _ w refl free safe
        apply_workload-IsSafe true w free safe =
            let shrunk = server.apply_config_map_shrinks _ w.state in
            config_map_applied-IsSafe _ _ (Shrinks-IsFree V isvc shrunk free)
              (Shrinks-IsSafe shrunk safe)

    module _ (mine : V.named isvc.metadata.uid ≡ some (object_key K isvc)) (tenant : BrukTenant K)
        (model : BrukModel K) where
      conflict_checked-IsSafe :
          (verdict : Result String) (w : World C)
          → (verdict ≡ ok "" → IsFree V isvc w.state)
          → IsSafe w.state
          → IsSafe (conflict_checked C isvc tenant model verdict w).1.state
      unfolding conflict_checked
      conflict_checked-IsSafe (err e) w free safe = safe
      conflict_checked-IsSafe (ok message) w free safe = elim (Bool-cases (str_eq message "")) [
        | inl silent ↦ rw silent (
            apply_workload-IsSafe model (config_of K tenant) mine _ w
              (free (ap ok ((str_eq_iff message "").0 silent))) safe)
        | inr told ↦ rw told (fail_configured-IsSafe _ _ w safe)
      ]

      spec_checked-IsSafe :
          (w : World C) → IsSafe w.state → IsSafe (spec_checked C isvc tenant model w).1.state
      unfolding spec_checked
      spec_checked-IsSafe w safe =
          elim (Bool-cases (has_value isvc.spec.storage.trusted_store.local_volume)) [
            | inl reserved ↦ rw reserved (fail_configured-IsSafe _ _ w safe)
            | inr unreserved ↦ elim (Bool-cases (has_value model.spec.source.hugging_face)) [
              | inr unsourced ↦ rw (unreserved, unsourced) (fail_configured-IsSafe _ _ w safe)
              | inl sourced ↦
                  elim (Bool-cases
                    (ltb_ℤ model.spec.catalog.context_length isvc.spec.engine.max_model_len)) [
                      | inl long ↦
                          rw (unreserved, sourced, long) (fail_configured-IsSafe _ _ w safe)
                      | inr fits ↦
                          rw (unreserved, sourced, fits)
                            (conflict_checked-IsSafe _ _
                              (trusted_store_conflict-IsFree V server isvc w safe.1 mine)
                              (Shrinks-IsSafe (trusted_store_conflict-Shrinks V server isvc w)
                                safe))
                    ]
            ]
          ]

  model_fetched-IsSafe :
      (isvc : InferenceService K) (tenant : BrukTenant K) (r : Result (BrukModel K)) (w : World C)
      → V.named isvc.metadata.uid ≡ some (object_key K isvc)
      → IsSafe w.state
      → IsSafe (model_fetched C isvc tenant r w).1.state
  unfolding model_fetched
  model_fetched-IsSafe isvc tenant (ok model) w mine safe =
      spec_checked-IsSafe isvc mine tenant model w safe
  model_fetched-IsSafe isvc tenant (err e) w mine safe = elim (Bool-cases (is_not_found e)) [
    | inl missing ↦ rw missing (fail_configured-IsSafe isvc _ _ w safe)
    | inr broken ↦ rw broken safe
  ]

  tenant_fetched-IsSafe :
      (isvc : InferenceService K) (r : Result (BrukTenant K)) (w : World C)
      → V.named isvc.metadata.uid ≡ some (object_key K isvc)
      → IsSafe w.state
      → IsSafe (tenant_fetched C isvc r w).1.state
  unfolding tenant_fetched
  tenant_fetched-IsSafe isvc (ok tenant) w mine safe =
      model_fetched-IsSafe isvc tenant _ _ mine
        (Shrinks-IsSafe (server.get_bruk_model_shrinks _ w.state) safe)
  tenant_fetched-IsSafe isvc (err e) w mine safe = elim (Bool-cases (is_not_found e)) [
    | inl missing ↦ rw missing (fail_configured-IsSafe isvc _ _ w safe)
    | inr broken ↦ rw broken safe
  ]

  service_fetched-IsSafe :
      (r : Result (InferenceService K)) (w : World C)
      → ((isvc : InferenceService K)
          → r ≡ ok isvc
          → V.named isvc.metadata.uid ≡ some (object_key K isvc))
      → IsSafe w.state
      → IsSafe (service_fetched C r w).1.state
  unfolding service_fetched
  service_fetched-IsSafe (err e) w mine safe = safe
  service_fetched-IsSafe (ok isvc) w mine safe =
      tenant_fetched-IsSafe isvc _ _ (mine isvc refl)
        (Shrinks-IsSafe (server.get_bruk_tenant_shrinks _ w.state) safe)

  pub reconcile-IsSafe :
      (request : NamespacedName) (w : World C)
      → IsSafe w.state
      → IsSafe (reconcile C request w).1.state
  unfolding reconcile
  reconcile-IsSafe request w safe =
      service_fetched-IsSafe _ _ (server.names_services request w.state)
        (Shrinks-IsSafe (server.get_inference_service_shrinks request w.state) safe)
