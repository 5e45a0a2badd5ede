-- ===== src/Render/Volumes.antt =====
-- What the rendered Deployment refers to outside itself: claims, ConfigMaps and Secrets.
-- `volumes` and `engineEnv` of operator/internal/render/render.go.
use bruk.Prelude.{arith, String, List, [], ◌∷◌, ◌++◌, Option, none, some, ◌≡◌, refl}
use mathlib.Core.List.{append-nil}
use mathlib.Core.Option.{some-injective}
use bruk.Prelude.{sym, ◌∙◌}
use bruk.Result.{ok}
use bruk.Platform.{Platform}
use bruk.Kube.Workload.{SecretKeySelector, EnvVar, Volume, Container, Deployment}
use bruk.Api.Common.{SecretKeyRef}
use bruk.Api.BrukModel.{HuggingFaceSource, BrukModel}
use bruk.Api.InferenceService.{InferenceService, WeightsCacheSpec}
use bruk.Render.{Config, gai_config_map_name, token_env, engine_env}
use bruk.Render.{volumes, engine_container, deployment_object, deployment}
use bruk.Render.Workload.{deployment-IsRendered}

abbrev listed {ℓ κ} : {A : Type ℓ} {B : Type κ} → (A → B) → Option A → List B
listed f none = []
listed f (some a) = f a ∷ []

abbrev pub selector_of : SecretKeyRef → SecretKeySelector
selector_of ref = record { name = ref.name; key = ref.key }

-- The Secret keys that a list of variables is filled from, in order.
abbrev pub secrets_of : List EnvVar → List SecretKeySelector
secrets_of [] = []
secrets_of (e ∷ es) = listed (λ s. s) e.value_from ++ secrets_of es

module _ (K : Platform) where
  abbrev pub claims_of : List (Volume K) → List String
  claims_of [] = []
  claims_of (v ∷ vs) = listed (λ c. c) v.source.persistent_volume_claim ++ claims_of vs

  abbrev pub config_maps_of : List (Volume K) → List String
  config_maps_of [] = []
  config_maps_of (v ∷ vs) = listed (λ c. c) v.source.config_map ++ config_maps_of vs

  abbrev pub container_secrets : List (Container K) → List SecretKeySelector
  container_secrets [] = []
  container_secrets (c ∷ cs) = secrets_of c.env ++ container_secrets cs

  -- The ConfigMaps that a service needs: the gai override, with a weights cache.
  abbrev pub needed_config_maps : Option (WeightsCacheSpec K) → List String
  needed_config_maps = listed (λ cache. gai_config_map_name)

  secrets_of-token_env :
      (ref : Option SecretKeyRef) (es : List EnvVar)
      → secrets_of es ≡ []
      → secrets_of (token_env ref ++ es) ≡ listed selector_of ref
  secrets_of-token_env none es e = e
  secrets_of-token_env (some ref) es e = cc

  claims_of-volumes :
      (isvc : InferenceService K)
      → claims_of (volumes K isvc) ≡ isvc.spec.storage.trusted_store.existing_claim ∷ []
  unfolding volumes
  claims_of-volumes isvc = ground arith

  pub config_maps_of-volumes :
      (isvc : InferenceService K)
      → config_maps_of (volumes K isvc) ≡ needed_config_maps isvc.spec.storage.weights_cache
  unfolding volumes
  config_maps_of-volumes isvc = ground arith

  -- A rendered Deployment mounts the service's claim and no other, the gai ConfigMap exactly with a
  -- weights cache, and reads the model's token Secret, by its key, and no other Secret.
  pub deployment-references :
      (isvc : InferenceService K) (model : BrukModel K) (cfg : Config) (hf : HuggingFaceSource)
      {d : Deployment K}
      → model.spec.source.hugging_face ≡ some hf
      → deployment K isvc model cfg ≡ ok d
      → (claims_of d.spec.template.spec.volumes
          ≡ isvc.spec.storage.trusted_store.existing_claim ∷ [])
        × (config_maps_of d.spec.template.spec.volumes
            ≡ needed_config_maps isvc.spec.storage.weights_cache)
        × (container_secrets d.spec.template.spec.containers
            ≡ listed selector_of hf.token_secret_ref)
  unfolding deployment_object engine_container engine_env
  deployment-references isvc model cfg hf set h =
      let (hf', set', image, blob, same) = deployment-IsRendered K isvc model cfg h in
      let one : hf' ≡ hf = some-injective _ _ (sym set' ∙ set) in
      rw (same, one)
        (
          claims_of-volumes isvc,
          config_maps_of-volumes isvc,
          append-nil _ ∙ secrets_of-token_env hf.token_secret_ref _ refl,
        )
