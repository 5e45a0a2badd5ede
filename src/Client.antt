-- ===== src/Client.antt =====
-- The API server as the reconcilers use it through controller-runtime's client: a parameter, whose
-- answers may be anything and may change from call to call. A run threads its state and keeps the
-- calls that were made, the latest first.
pub mod Reads
use bruk.Prelude.{String, List, ◌∷◌}
use bruk.Result.{Result}
use bruk.Platform.{Platform}
use bruk.Kube.Meta.{NamespacedName}
use bruk.Kube.Workload.{Pod, Deployment, Service, ConfigMap, Secret}
use bruk.Api.BrukModel.{BrukModel}
use bruk.Api.BrukTenant.{BrukTenant}
use bruk.Api.InferenceService.{InferenceService}

module _ (K : Platform) where
  -- `Get`, `List` in a namespace or in all, `Patch` with server-side apply, which hands back the
  -- object as the server has it, and `Status().Update`.
  pub record Client : Type 1 where
    pub State : Type 0
    pub get_inference_service : NamespacedName → State → Result (InferenceService K) × State
    pub get_bruk_tenant : NamespacedName → State → Result (BrukTenant K) × State
    pub get_bruk_model : NamespacedName → State → Result (BrukModel K) × State
    pub get_secret : NamespacedName → State → Result (Secret K) × State
    pub list_inference_services : String → State → Result (List (InferenceService K)) × State
    pub list_all_inference_services : State → Result (List (InferenceService K)) × State
    pub list_deployments : String → State → Result (List (Deployment K)) × State
    pub list_pods : String → State → Result (List (Pod K)) × State
    pub apply_config_map : ConfigMap K → State → Result (ConfigMap K) × State
    pub apply_deployment : Deployment K → State → Result (Deployment K) × State
    pub apply_service : Service K → State → Result (Service K) × State
    pub update_inference_service_status : InferenceService K → State → Result (Unit {0}) × State
    pub update_bruk_model_status : BrukModel K → State → Result (Unit {0}) × State
    pub update_bruk_tenant_status : BrukTenant K → State → Result (Unit {0}) × State

  -- A call, with what it sends.
  pub data Call : Type 0 where
    got_inference_service : NamespacedName → Call
    got_bruk_tenant : NamespacedName → Call
    got_bruk_model : NamespacedName → Call
    got_secret : NamespacedName → Call
    listed_inference_services : String → Call
    listed_all_inference_services : Call
    listed_deployments : String → Call
    listed_pods : String → Call
    applied_config_map : ConfigMap K → Call
    applied_deployment : Deployment K → Call
    applied_service : Service K → Call
    updated_inference_service_status : InferenceService K → Call
    updated_bruk_model_status : BrukModel K → Call
    updated_bruk_tenant_status : BrukTenant K → Call

module _ {K : Platform} where
  pub record World (C : Client K) : Type 0 where
    pub state : C.State
    pub log : List (Call K)

  abbrev pub M : Client K → Type 0 → Type 0
  M C A = World C → A × World C

infixl 5 ◌>>=◌
abbrev pub ◌>>=◌ : {K : Platform} {C : Client K} {A B : Type 0} → M C A → (A → M C B) → M C B
◌>>=◌ m f w = let r = m w in f r.0 r.1

abbrev pub pure : {K : Platform} {C : Client K} {A : Type 0} → A → M C A
pure a w = (a, w)

-- One call: its answer, the new state, and the entry in the log.
abbrev pub call :
    {K : Platform} {C : Client K} {A : Type 0} → Call K → (C.State → A × C.State) → M C A
call c ask w = let r = ask w.state in (r.0, record { state = r.1; log = c ∷ w.log })
