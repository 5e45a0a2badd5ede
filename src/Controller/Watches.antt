-- ===== src/Controller/Watches.antt =====
-- The three `SetupWithManager` of operator/internal/controller: which changes in the cluster queue which
-- requests. The builder of controller-runtime is a parameter.
pub mod Laws
use bruk.Prelude.{String, Bool, List, [], ◌∷◌, ◌++◌}
use bruk.Platform.{Platform}
use bruk.Kube.Meta.{NamespacedName}
use bruk.Client.{Client, M, pure, ◌>>=◌}
use bruk.Controller.Inference.Requeue.{services_for_model, all_services}

-- The kinds that the reconcilers read or write.
pub data Kind : Type 0 where
  bruk_tenant bruk_model inference_service : Kind
  deployment service config_map pod secret : Kind

-- A change of an object: its kind, its key, and the owner that controls it, if that is an
-- InferenceService.
pub record Event : Type 0 where
  pub kind : Kind
  pub key : NamespacedName
  pub owner : List NamespacedName

module _ {K : Platform} (C : Client K) where
  -- `handler.MapFunc`, of the changed object's key.
  abbrev pub MapFunc : Type 0
  MapFunc = NamespacedName → M C (List NamespacedName)

  abbrev pub Handler : Type 0
  Handler = Event → M C (List NamespacedName)

  -- `ctrl.NewControllerManagedBy` as the setups call it.
  pub record Builder : Type 0 where
    pub for_kind : Kind → Handler
    pub owns : Kind → Handler
    pub watches : Kind → MapFunc → Handler

  -- A controller's name and its sources of requests.
  pub record Controller : Type 0 where
    pub name : String
    pub sources : List Handler

  -- The handlers of all sources, one after the other.
  pub requests_of : List Handler → Handler
  requests_of [] event = pure []
  requests_of (source ∷ sources) event = do
    first ← source event
    others ← requests_of sources event
    pure (first ++ others)

  module _ (B : Builder) where
    -- `SetupWithManager` of the InferenceService reconciler.
    abbrev pub set_up_inference_service : Controller
    set_up_inference_service = record {
      name = "inferenceservice";
      sources =
          B.for_kind inference_service
          ∷ B.owns deployment
          ∷ B.owns service
          ∷ B.watches bruk_model (services_for_model C)
          ∷ B.watches bruk_tenant (λ key. all_services C)
          ∷ [];
    }

    -- `SetupWithManager` of the BrukModel reconciler.
    abbrev pub set_up_bruk_model : Controller
    set_up_bruk_model = record { name = "brukmodel"; sources = B.for_kind bruk_model ∷ [] }

    -- `SetupWithManager` of the BrukTenant reconciler.
    abbrev pub set_up_bruk_tenant : Controller
    set_up_bruk_tenant = record { name = "bruktenant"; sources = B.for_kind bruk_tenant ∷ [] }
