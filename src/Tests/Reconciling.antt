-- ===== src/Tests/Reconciling.antt =====
-- Runs of the InferenceService's reconciler on the cluster of two services.
use bruk.Prelude.{String, List, [], ◌∷◌, none, ◌≡◌, ◌↔◌, refl, str_eq}
use bruk.Prelude.{Any, here, there, ◌⊎◌}
use bruk.Prelude.Int.{ltb_ℤ}
use bruk.Controller.Status.Reports.{IsReport, ready_status-IsReport}
use bruk.Result.{Result, err, not_found, is_not_found}
use bruk.Kube.Meta.{NamespacedName}
use bruk.Kube.Condition.{condition_true}
use bruk.Kube.Workload.{Deployment}
use bruk.Api.BrukModel.{BrukModel}
use bruk.Api.BrukTenant.{BrukTenant}
use bruk.Api.InferenceService.{InferenceService}
use bruk.Api.InferenceService.Names.{reason_tenant_config_missing}
use bruk.Render.{
  deployment, deployment_from, deployment_object, engine_container, resolve_image, service,
}
use bruk.Client.{Client, World, Call, applied_deployment, updated_inference_service_status}
use bruk.Client.{got_bruk_tenant, got_inference_service}
use bruk.Controller.Status.{failed_status, ready_status}
use bruk.Controller.Status.Honest.{IsHonest}
use bruk.Controller.Status.Honest.{failed_status-IsHonest}
use bruk.Controller.Conflict.{
  trusted_store_conflict, sibling_conflict, deployment_conflict, pod_conflict, precedes,
}
use bruk.Controller.Inference.{reconcile, spec_checked, config_of, tenant_key, model_key}
use bruk.Controller.Inference.Trace.{Run, Cleared, IsWorkload}
use bruk.Controller.Inference.Steps.{reconcile-Run}
use bruk.Controller.Inference.Safety.{applied_deployment-Cleared, workload_calls}
use bruk.Controller.Inference.Failure.{failed_run-keeps_workload}
use bruk.Controller.Inference.Writes.{IsUpdateOf, reconcile-Written, reconcile-Honest}
use bruk.Controller.Inference.Order.{IsOrdered, reconcile-IsOrdered}
use bruk.Controller.Inference.Requeue.{services_for_model, services_for_model_iff}
use bruk.Api.InferenceService.{object_key}
use bruk.Tests.Fixtures.{
  demo, demo_keeps, rolled_out, chat, draft, qwen, source, config, cluster, server, start, key_of,
}

abbrev chat_run : Result (Unit {0}) × World (cluster chat)
chat_run = reconcile (cluster chat) (key_of chat) (start (cluster chat) tt)

-- A cluster without its tenant.
abbrev bare : Client demo
bare = server chat (chat ∷ draft ∷ []) (err (not_found "bruktenants \"cluster\" not found"))

abbrev bare_run : Result (Unit {0}) × World bare
bare_run = reconcile bare (key_of chat) (start bare tt)

abbrev missing_message : String
missing_message =
    "BrukTenant 'cluster' not found; per-cluster config (initdata, default image) unavailable"

bare_log :
    bare_run.1.log
    ≡ updated_inference_service_status
        (failed_status demo chat reason_tenant_config_missing missing_message)
      ∷ got_bruk_tenant tenant_key
      ∷ got_inference_service (key_of chat)
      ∷ []
unfolding reconcile is_not_found
bare_log = refl

reconcile-Run_example :
    Run (cluster chat) (key_of chat) (start (cluster chat) tt) chat_run.0 chat_run.1.log
reconcile-Run_example = reconcile-Run (cluster chat) (key_of chat) (start (cluster chat) tt)

abbrev serving : Deployment demo
serving = record {
  type_meta = record { api_version = "apps/v1"; kind = "Deployment" };
  metadata = chat.metadata;
  spec = record {
    replicas = none;
    strategy = "Recreate";
    selector = [];
    template = record {
      metadata = chat.metadata;
      spec = record { runtime_class_name = none; containers = []; volumes = [] };
    };
  };
  conditions =
      record { type = "Progressing"; status = condition_true }
      ∷ record { type = "Available"; status = condition_true }
      ∷ [];
}

chat_applies : Any (λ c. c ≡ applied_deployment rolled_out) chat_run.1.log
unfolding reconcile spec_checked trusted_store_conflict sibling_conflict deployment_conflict
    pod_conflict precedes str_eq deployment deployment_from resolve_image ltb_ℤ deployment_object
    service
chat_applies = there (there (here refl))

applied_deployment-Cleared_example :
    Any (λ c. c ≡ applied_deployment rolled_out) []
    ⊎ ((isvc : InferenceService demo) × (t : BrukTenant demo) × (m : BrukModel demo) × Cleared
          (cluster chat)
          (key_of chat)
          (start (cluster chat) tt)
          isvc
          t
          m
        × IsWorkload isvc m (config_of demo t) rolled_out)
applied_deployment-Cleared_example =
    applied_deployment-Cleared (cluster chat) (key_of chat) (start (cluster chat) tt) rolled_out
      chat_applies

failed_run-keeps_workload_example : workload_calls bare_run.1.log ≡ []
failed_run-keeps_workload_example =
    failed_run-keeps_workload demo_keeps bare (key_of chat) (start bare tt)
      (failed_status demo chat reason_tenant_config_missing missing_message) bare_log
      (failed_status-IsHonest demo_keeps chat reason_tenant_config_missing missing_message).1

reconcile-Written_example :
    (i : InferenceService demo) × (rest : List (Call demo)) × (bare_run.1.log
      ≡ updated_inference_service_status i ∷ rest)
    × IsUpdateOf chat i
reconcile-Written_example =
    reconcile-Written bare (key_of chat) (start bare tt) chat refl
      (unfold reconcile is_not_found in refl)

reconcile-Honest_example :
    let i = failed_status demo chat reason_tenant_config_missing missing_message in
    Any (λ c. c ≡ updated_inference_service_status i) [] ⊎ IsHonest i
reconcile-Honest_example =
    reconcile-Honest demo_keeps bare (key_of chat) (start bare tt)
      (failed_status demo chat reason_tenant_config_missing missing_message)
      (rw bare_log (here refl))

reconcile-IsOrdered_example : IsOrdered chat_run.1.log
reconcile-IsOrdered_example =
    reconcile-IsOrdered (cluster chat) (key_of chat) (start (cluster chat) tt) tt

services_for_model_iff_example :
    let changed : NamespacedName = record { name = "qwen"; namespace = "ai" } in
    Any
      (λ k. k ≡ key_of draft)
      (services_for_model (cluster chat) changed (start (cluster chat) tt)).0
    ↔ Any
        (λ isvc. (object_key demo isvc ≡ key_of draft) × (model_key isvc ≡ changed))
        (chat ∷ draft ∷ [])
services_for_model_iff_example =
    services_for_model_iff (cluster chat) (record { name = "qwen"; namespace = "ai" })
      (start (cluster chat) tt) (chat ∷ draft ∷ []) (key_of draft) refl (refl, (refl, tt))

ready_status-IsReport_example :
    IsReport
      (ready_status demo chat qwen serving config)
      (deployment_object demo chat (engine_container demo chat qwen source "vllm:1") config)
      (service demo chat)
ready_status-IsReport_example =
    ready_status-IsReport chat qwen config serving
      (unfold deployment deployment_from resolve_image str_eq in refl)
