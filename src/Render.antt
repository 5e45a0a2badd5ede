-- ===== src/Render.antt =====
-- operator/internal/render/render.go: from the custom resources to the workload objects. A Go
-- pointer to a fresh value is the value under `some`.
mod Fixed
pub mod Args
pub mod Volumes
pub mod Workload
pub mod Exposure
pub mod Hash
pub mod Status
pub use Fixed.*
use bruk.Prelude.{String, ◌<>◌, Bool, true, false, List, [], ◌∷◌, ◌++◌, Option, none, some}
use bruk.Prelude.{str_eq, if◌then◌else◌}
use bruk.Prelude.Int.{ℤ, pos}
use bruk.Fmt.{format_d, format_02d, hex_encode, take_text}
use bruk.Result.{Result, ok, err, Error, failure, ◌>>=◌}
use bruk.Platform.{Platform}
use bruk.Kube.Meta.{TypeMeta, no_type_meta, ObjectMeta, no_object_meta}
use bruk.Kube.Workload.{SecretKeySelector, EnvVar, VolumeMount, VolumeDevice, Probe, ServicePort}
use bruk.Kube.Workload.{EmptyDir, VolumeSource, Volume, Container, Deployment, Service, ConfigMap}
use bruk.Api.Common.{SecretKeyRef, ResourcePair}
use bruk.Api.BrukModel.{HuggingFaceSource, BrukModel, served_model_name}
use bruk.Api.InferenceService.{ProbeOverrides, WeightsCacheSpec, InferenceService}

-- `Config`
pub record Config : Type 0 where
  pub init_data_b64 : String
  pub default_image : String

-- `ResolveImage`, whose first argument is not used.
unfoldable pub resolve_image : Config → Result String
resolve_image cfg =
    if str_eq cfg.default_image ""
    then err (failure "no engine image: BrukTenant.spec.engine.defaultImage is not set")
    else ok cfg.default_image

abbrev pub token_env : Option SecretKeyRef → List EnvVar
token_env none = []
token_env (some ref) =
    record {
      name = "HF_TOKEN";
      value = "";
      value_from = some (record { name = ref.name; key = ref.key });
    }
    ∷ []

-- `engineEnv`, from the model's source.
pub engine_env : HuggingFaceSource → List EnvVar
engine_env hf =
    token_env hf.token_secret_ref
    ++ record { name = "VLLM_ATTENTION_BACKEND"; value = "FLASH_ATTN"; value_from = none } ∷ []

-- `volumeMounts`
pub volume_mounts : Bool → List VolumeMount
volume_mounts has_weights_cache =
    (if has_weights_cache
      then record { name = "models"; mount_path = weights_cache_mount_path; sub_path = "" } ∷ []
      else [])
    ++ record { name = "dshm"; mount_path = "/dev/shm"; sub_path = "" }
      ∷ (if has_weights_cache
          then record { name = "gai"; mount_path = "/etc/gai.conf"; sub_path = "gai.conf" } ∷ []
          else [])

abbrev pub has_value {ℓ} : {A : Type ℓ} → Option A → Bool
has_value none = false
has_value (some _) = true

module _ (K : Platform) where
  -- `ServiceName`
  unfoldable pub service_name : InferenceService K → String
  service_name isvc = isvc.metadata.name <> "-svc"

  -- `EndpointURL`
  unfoldable pub endpoint_url : InferenceService K → String
  endpoint_url isvc =
      "http://"
      <> service_name isvc
      <> "."
      <> isvc.metadata.namespace
      <> ".svc.cluster.local:"
      <> format_d serving_port
      <> "/v1"

  -- `InitDataHash`
  pub init_data_hash : String → String
  init_data_hash init_data_b64 = take_text 12 (hex_encode (K.sha256 init_data_b64))

  -- `engineArgs`, with the model's source, which the caller has found to be set.
  unfoldable pub engine_args : InferenceService K → BrukModel K → HuggingFaceSource → List String
  engine_args isvc model hf =
      ("--model=" <> hf.repo)
        ∷ ("--served-model-name=" <> served_model_name K model)
        ∷ (if str_eq isvc.spec.engine.quantization ""
            then []
            else ("--quantization=" <> isvc.spec.engine.quantization) ∷ [])
      ++ ("--max-model-len=" <> format_d isvc.spec.engine.max_model_len)
        ∷ ("--gpu-memory-utilization=0."
            <> format_02d isvc.spec.engine.gpu_memory_utilization_percent)
        ∷ "--host=0.0.0.0"
        ∷ ("--port=" <> format_d serving_port)
        ∷ []

  -- A volume with one source set.
  abbrev pub empty_dir_volume : String → EmptyDir K → Volume K
  empty_dir_volume name dir = record {
    name = name;
    source = record { empty_dir = some dir; config_map = none; persistent_volume_claim = none };
  }

  abbrev pub config_map_volume : String → String → Volume K
  config_map_volume name map_name = record {
    name = name;
    source = record {
      empty_dir = none;
      config_map = some map_name;
      persistent_volume_claim = none;
    };
  }

  abbrev pub claim_volume : String → String → Volume K
  claim_volume name claim = record {
    name = name;
    source = record { empty_dir = none; config_map = none; persistent_volume_claim = some claim };
  }

  -- The two volumes that `volumes` adds for a weights cache.
  abbrev pub models_volume : Option (WeightsCacheSpec K) → List (Volume K)
  models_volume none = []
  models_volume (some cache) =
      empty_dir_volume "models" (record { medium = ""; size_limit = cache.size_limit }) ∷ []

  abbrev pub gai_volume : Option (WeightsCacheSpec K) → List (Volume K)
  gai_volume none = []
  gai_volume (some cache) = config_map_volume "gai" gai_config_map_name ∷ []

  -- `volumes`. The source passes `WeightsCache != nil` beside the service; here the cache is read.
  unfoldable pub volumes : InferenceService K → List (Volume K)
  volumes isvc =
      models_volume isvc.spec.storage.weights_cache
      ++ empty_dir_volume "dshm"
          (record { medium = "Memory"; size_limit = some (K.must_parse dshm_size_limit) })
        ∷ gai_volume isvc.spec.storage.weights_cache
      ++ claim_volume "trusted-image" isvc.spec.storage.trusted_store.existing_claim ∷ []

  abbrev threshold_override : Option ProbeOverrides → Option ℤ
  threshold_override none = none
  threshold_override (some probes) = probes.readiness_failure_threshold

  abbrev default_threshold : Option (WeightsCacheSpec K) → ℤ
  default_threshold none = default_failure_threshold
  default_threshold (some cache) = weights_cache_failure_threshold

  -- `failureThreshold`
  pub failure_threshold : InferenceService K → ℤ
  failure_threshold isvc = elim (threshold_override isvc.spec.probes) [
    | none ↦ default_threshold isvc.spec.storage.weights_cache
    | some threshold ↦ threshold
  ]

  abbrev or_limit : Option K.Quantity → K.Quantity → K.Quantity
  or_limit none limit = limit
  or_limit (some request) limit = request

  -- `requestOrLimit`
  pub request_or_limit : ResourcePair K → K.Quantity
  request_or_limit pair = or_limit pair.request pair.limit

  -- `Service`
  unfoldable pub service : InferenceService K → Service K
  service isvc = record {
    type_meta = no_type_meta;
    metadata = record (no_object_meta K) {
      name = service_name isvc;
      namespace = isvc.metadata.namespace;
    };
    selector = ("app", isvc.metadata.name) ∷ [];
    ports = record { port = serving_port; target_port = serving_port } ∷ [];
  }

  -- `GaiConfigMap`
  unfoldable pub gai_config_map : String → ConfigMap K
  gai_config_map namespace = record {
    type_meta = no_type_meta;
    metadata = record (no_object_meta K) { name = gai_config_map_name; namespace = namespace };
    contents = ("gai.conf", "precedence ::ffff:0:0/96 100\n") ∷ [];
  }

  -- The container that `Deployment` builds.
  unfoldable pub engine_container :
      InferenceService K → BrukModel K → HuggingFaceSource → String → Container K
  engine_container isvc model hf image = record {
    name = container_name;
    image = image;
    args = engine_args isvc model hf;
    ports = serving_port ∷ [];
    env = engine_env hf;
    resources = record {
      limits =
          (gpu_resource_name, K.new_quantity isvc.spec.resources.gpus)
          ∷ ("memory", isvc.spec.resources.memory.limit)
          ∷ ("cpu", isvc.spec.resources.cpu.limit)
          ∷ [];
      requests =
          ("memory", request_or_limit isvc.spec.resources.memory)
          ∷ ("cpu", request_or_limit isvc.spec.resources.cpu)
          ∷ [];
    };
    volume_mounts = volume_mounts (has_value isvc.spec.storage.weights_cache);
    volume_devices =
        record { name = "trusted-image"; device_path = trusted_store_device_path } ∷ [];
    readiness_probe = some (record {
      path = "/health";
      port = serving_port;
      initial_delay_seconds = readiness_initial_delay_seconds;
      period_seconds = readiness_period_seconds;
      failure_threshold = failure_threshold isvc;
    });
  }

  -- The object that `Deployment` returns.
  unfoldable pub deployment_object : InferenceService K → Container K → Config → Deployment K
  deployment_object isvc container cfg =
      let labels : List (String × String) = ("app", isvc.metadata.name) ∷ [] in
      record {
        type_meta = no_type_meta;
        metadata = record (no_object_meta K) {
          name = isvc.metadata.name;
          namespace = isvc.metadata.namespace;
          labels = labels;
        };
        spec = record {
          replicas = some (pos 1);
          strategy = "Recreate";
          selector = labels;
          template = record {
            metadata = record (no_object_meta K) {
              labels = labels;
              annotations = (init_data_annotation, cfg.init_data_b64) ∷ [];
            };
            spec = record {
              runtime_class_name = some runtime_class_name;
              containers = container ∷ [];
              volumes = volumes isvc;
            };
          };
        };
        conditions = [];
      }

  -- `Deployment` past the check of the model's source.
  unfoldable pub deployment_from :
      InferenceService K → BrukModel K → Config → HuggingFaceSource → Result (Deployment K)
  deployment_from isvc model cfg hf = do
    image ← resolve_image cfg
    if str_eq cfg.init_data_b64 ""
        then err (failure no_init_data_text)
        else ok (deployment_object isvc (engine_container isvc model hf image) cfg)

  -- `Deployment`
  unfoldable pub deployment : InferenceService K → BrukModel K → Config → Result (Deployment K)
  deployment isvc model cfg = elim model.spec.source.hugging_face [
    | none ↦ err (
        failure (
          "BrukModel " <> model.metadata.name
          <> " has no huggingFace source; v1alpha1 supports only huggingFace"))
    | some hf ↦ deployment_from isvc model cfg hf
  ]
