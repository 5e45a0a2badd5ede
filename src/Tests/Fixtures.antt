-- ===== src/Tests/Fixtures.antt =====
-- A concrete platform, API server, and objects after the samples of operator/config/samples.
use bruk.Prelude.{ℕ, String, ◌<>◌, Bool, false, List, [], ◌∷◌, Option, none, some, ◌≡◌, refl}
use bruk.Prelude.{◌==◌, ltb, if◌then◌else◌, str_eq, str_eq_iff, arith}
use bruk.Prelude.Int.{pos}
use bruk.Fmt.{format_d}
use bruk.Result.{Result, ok, err, failure}
use bruk.Platform.{Platform}
use bruk.Kube.Condition.{Condition, find_status_condition}
use bruk.Kube.Meta.{NamespacedName, ObjectMeta, no_type_meta, no_object_meta}
use bruk.Kube.Workload.{Secret}
use bruk.Api.BrukModel.{HuggingFaceSource, BrukModel}
use bruk.Api.BrukTenant.{BrukTenant}
use bruk.Api.InferenceService.{WeightsCacheSpec, InferenceService}
use bruk.Render.{Config}
use bruk.Client.{Client, World}
use bruk.Controller.Status.Honest.{KeepsConditions}
use bruk.Controller.Conflict.Order.{IsClock}
use bruk.Controller.Status.Settles.{KeepsSame}
use bruk.Kube.Workload.{Deployment}
use bruk.Render.{deployment_object, engine_container}
use bruk.Prelude.{ap, Bool-cases, inl, inr}

pub put_condition : List Condition → Condition → List Condition
put_condition [] c = c ∷ []
put_condition (d ∷ ds) c =
    let rest = put_condition ds c in if str_eq d.type c.type then c ∷ ds else d ∷ rest

find-put_condition :
    (cs : List Condition) (c : Condition) (t : String)
    → find_status_condition (put_condition cs c) t
      ≡ (if str_eq c.type t then some c else find_status_condition cs t)
unfolding put_condition find_status_condition
find-put_condition [] c t = ground arith
find-put_condition (d ∷ ds) c t = ground (
  arith,
  find-put_condition ds c t,
  str_eq_iff d.type c.type,
  str_eq_iff c.type t,
  str_eq_iff d.type t,
)

-- An object without references takes the owner; one with another controller is refused.
abbrev own : String → List String → Result (List String)
own uid [] = ok (uid ∷ [])
own uid (u ∷ us) =
    if str_eq u uid then ok (u ∷ us) else err (failure "already owned by another controller")

abbrev leads : List String → String → Bool
leads [] uid = false
leads (u ∷ us) uid = str_eq u uid

-- Quantities are their texts, times seconds, and an owner reference is a UID.
abbrev pub demo : Platform
demo = record {
  Quantity = String;
  new_quantity = format_d;
  must_parse = λ s. s;
  Time = ℕ;
  zero_time = 0;
  time_equal = ◌==◌;
  time_before = ltb;
  OwnerReference = String;
  set_controller_reference = λ name namespace uid other refs. own uid refs;
  is_controlled_by = leads;
  set_status_condition = put_condition;
  quote = λ s. "\"" <> s <> "\"";
  sha256 = λ s.
      0 ∷ 1 ∷ 2 ∷ 3 ∷ 4 ∷ 5 ∷ 6 ∷ 7 ∷ 8 ∷ 9 ∷ 10 ∷ 11 ∷ 12 ∷ 13 ∷ 14 ∷ 15 ∷ 16 ∷ 17 ∷ 18 ∷ 19 ∷ 20
      ∷ 21 ∷ 22 ∷ 23 ∷ 24 ∷ 25 ∷ 26 ∷ 27 ∷ 28 ∷ 29 ∷ 30 ∷ 31 ∷ [];
}

pub demo_keeps : KeepsConditions demo
demo_keeps = record { find-set = find-put_condition }

put_condition_same :
    (cs : List Condition) (c : Condition)
    → find_status_condition cs c.type ≡ some c
    → put_condition cs c ≡ cs
unfolding put_condition find_status_condition
put_condition_same [] c h = cc
put_condition_same (d ∷ ds) c h = elim (Bool-cases (str_eq d.type c.type)) [
  | inl same ↦ let e : some d ≡ some c = (rw same at h) in rw same cc
  | inr other ↦ rw other (ap (λ rest. d ∷ rest) (put_condition_same ds c (rw other at h)))
]

pub demo-KeepsSame : KeepsSame demo
demo-KeepsSame = record { set_same = put_condition_same }

pub demo-IsClock : IsClock demo
demo-IsClock = record {
  instant = λ t. t;
  equal_instant = λ t u. refl;
  before_instant = λ t u. refl;
}

abbrev pub demo_meta : String → String → ℕ → ObjectMeta demo
demo_meta name uid at = record (no_object_meta demo) {
  name = name;
  namespace = "ai";
  uid = uid;
  generation = pos 2;
  creation_timestamp = at;
}

abbrev pub source : HuggingFaceSource
source = record {
  repo = "Qwen/Qwen3-8B";
  revision = "";
  token_secret_ref = some (record { name = "hf-token"; key = "token" });
}

abbrev pub model_of : Option HuggingFaceSource → BrukModel demo
model_of hf = record {
  type_meta = no_type_meta;
  metadata = demo_meta "qwen" "m-1" 1;
  spec = record {
    source = record { hugging_face = hf };
    served_name = "qwen3-8b";
    catalog = record {
      display_name = "Qwen3 8B";
      description = "";
      context_length = pos 32768;
      input_modalities = [];
      output_modalities = [];
      features = [];
      license = "";
      pricing = none;
    };
  };
  status = record { observed_generation = pos 1; conditions = [] };
}

abbrev pub qwen : BrukModel demo
qwen = model_of (some source)

abbrev pub cache_10 : WeightsCacheSpec demo
cache_10 = record { size_limit = some "10Gi" }

abbrev pub isvc_of :
    String → String → ℕ → String → Option (WeightsCacheSpec demo) → InferenceService demo
isvc_of name uid at claim cache = record {
  type_meta = no_type_meta;
  metadata = demo_meta name uid at;
  spec = record {
    model_ref = record { name = "qwen" };
    engine = record {
      quantization = "fp8";
      max_model_len = pos 8192;
      gpu_memory_utilization_percent = pos 9;
    };
    resources = record {
      gpus = pos 1;
      memory = record { limit = "64Gi"; request = none };
      cpu = record { limit = "8"; request = some "4" };
    };
    storage = record {
      trusted_store = record { existing_claim = claim; local_volume = none };
      weights_cache = cache;
    };
    probes = none;
  };
  status = record {
    observed_generation = pos 1;
    conditions = [];
    endpoint = none;
    served_model_name = "";
    resolved_image = "";
    applied_init_data_hash = "";
  };
}

-- Two services that name one claim; the first is the older.
abbrev pub chat : InferenceService demo
chat = isvc_of "chat" "u-1" 10 "store" (some cache_10)

abbrev pub draft : InferenceService demo
draft = isvc_of "draft" "u-2" 20 "store" none

-- The encoding of the bytes 1f 8b 08.
abbrev pub blob : String
blob = "H4sI"

abbrev pub tenant : BrukTenant demo
tenant = record {
  type_meta = no_type_meta;
  metadata = record (no_object_meta demo) { name = "cluster"; generation = pos 3 };
  spec = record {
    tenant_id = "acme";
    display_name = "Acme";
    infrastructure = record { node_hostname = "node-1"; storage_volume_group = "vg0" };
    engine = record { default_image = "vllm:1" };
    confidential = record { init_data_b64 = blob };
  };
  status = record { observed_generation = pos 0; conditions = []; applied_init_data_hash = "" };
}

abbrev pub config : Config
config = record { init_data_b64 = blob; default_image = "vllm:1" }

abbrev pub token_of : List ℕ → Result (Secret demo)
token_of bytes =
    ok (record { metadata = demo_meta "hf-token" "s-1" 1; contents = ("token", bytes) ∷ [] })

-- The Deployment that a run for the older service applies.
abbrev pub rolled_out_with : Config → Deployment demo
rolled_out_with cfg =
    let bare_object : Deployment demo =
      deployment_object demo chat (engine_container demo chat qwen source cfg.default_image) cfg in
    record bare_object {
      type_meta = record { api_version = "apps/v1"; kind = "Deployment" };
      metadata = record (bare_object.metadata) { owner_references = "u-1" ∷ [] };
    }

abbrev pub rolled_out : Deployment demo
rolled_out = rolled_out_with config

-- A server that answers every read alike and accepts every write.
abbrev pub server :
    InferenceService demo → List (InferenceService demo) → Result (BrukTenant demo) → Client demo
server asked listed tenant_answer = record {
  State = Unit {0};
  get_inference_service = λ key s. (ok asked, s);
  get_bruk_tenant = λ key s. (tenant_answer, s);
  get_bruk_model = λ key s. (ok qwen, s);
  get_secret = λ key s. (token_of (1 ∷ 2 ∷ []), s);
  list_inference_services = λ namespace s. (ok listed, s);
  list_all_inference_services = λ s. (ok listed, s);
  list_deployments = λ namespace s. (ok [], s);
  list_pods = λ namespace s. (ok [], s);
  apply_config_map = λ o s. (ok o, s);
  apply_deployment = λ o s. (ok o, s);
  apply_service = λ o s. (ok o, s);
  update_inference_service_status = λ o s. (ok tt, s);
  update_bruk_model_status = λ o s. (ok tt, s);
  update_bruk_tenant_status = λ o s. (ok tt, s);
}

-- The cluster of the two services, and the request for one of them.
abbrev pub cluster : InferenceService demo → Client demo
cluster asked = server asked (chat ∷ draft ∷ []) (ok tenant)

abbrev pub start : (C : Client demo) → C.State → World C
start C s = record { state = s; log = [] }

abbrev pub key_of : InferenceService demo → NamespacedName
key_of isvc = record { name = isvc.metadata.name; namespace = isvc.metadata.namespace }
