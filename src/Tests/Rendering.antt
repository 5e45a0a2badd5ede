-- ===== src/Tests/Rendering.antt =====
-- The rendering of the older service of the cluster, which keeps a weights cache.
use bruk.Prelude.{String, ◌<>◌, [], ◌∷◌, none, ◌≡◌, ◌≢◌, ◌↔◌, refl, str_eq}
use bruk.Prelude.{◌≤◌, arith, Any}
use Prim.Native.String.{count}
use bruk.Fmt.{read_decimal, hex_encode}
use bruk.Result.{ok}
use bruk.Kube.Workload.{Deployment}
use bruk.Render.{resolve_image, deployment, deployment_from, deployment_object}
use bruk.Render.{
  engine_container, engine_args, init_data_hash, service, endpoint_url, gai_config_map_name,
}
use bruk.Render.Args.{engine_view, engine_args-injective, engine_args-utilization}
use bruk.Render.Volumes.{claims_of, config_maps_of, container_secrets, deployment-references}
use bruk.Render.Workload.{IsConsistent, IsConfidential}
use bruk.Render.Workload.{deployment-eq-ok_iff, deployment-IsConsistent, deployment-IsConfidential}
use bruk.Render.Exposure.{Routes, cluster_url, service-Routes}
use bruk.Render.Hash.{count-init_data_hash}
use bruk.Tests.Fixtures.{demo, chat, draft, qwen, source, config, blob}

abbrev rendered : Deployment demo
rendered = deployment_object demo chat (engine_container demo chat qwen source "vllm:1") config

renders : deployment demo chat qwen config ≡ ok rendered
unfolding deployment deployment_from resolve_image str_eq
renders = refl

-- Without an image nothing is rendered.
imageless : deployment demo chat qwen (record config { default_image = "" }) ≢ ok rendered
unfolding deployment deployment_from resolve_image str_eq
imageless h = cc

deployment-eq-ok_iff_example :
    ((d : Deployment demo) × (deployment demo chat qwen config ≡ ok d)) ↔ (
      (qwen.spec.source.hugging_face ≢ none)
      × (config.default_image ≢ "")
      × (config.init_data_b64 ≢ ""))
deployment-eq-ok_iff_example = deployment-eq-ok_iff demo chat qwen config

deployment-IsConsistent_example : IsConsistent demo rendered
deployment-IsConsistent_example = deployment-IsConsistent demo chat qwen config renders

deployment-IsConfidential_example : IsConfidential demo config rendered
deployment-IsConfidential_example = deployment-IsConfidential demo chat qwen config renders

engine_args-injective_example :
    engine_view demo chat qwen source ≡ engine_view demo draft qwen source
engine_args-injective_example =
    engine_args-injective demo chat draft qwen qwen source source (unfold engine_args in refl)

engine_args-utilization_example :
    (t : String) × Any
      (λ arg. arg ≡ "--gpu-memory-utilization=0." <> t)
      (engine_args demo chat qwen source)
    × (count t ≡ 2)
    × (read_decimal t ≡ 9)
engine_args-utilization_example = engine_args-utilization demo chat qwen source 9 refl (omega arith)

deployment-references_example :
    (claims_of demo rendered.spec.template.spec.volumes ≡ "store" ∷ [])
    × (config_maps_of demo rendered.spec.template.spec.volumes ≡ gai_config_map_name ∷ [])
    × (container_secrets demo rendered.spec.template.spec.containers
        ≡ record { name = "hf-token"; key = "token" } ∷ [])
deployment-references_example = deployment-references demo chat qwen config source refl renders

service-Routes_example :
    Routes demo (service demo chat) rendered
    × Any
        (λ p. endpoint_url demo chat ≡ cluster_url demo (service demo chat) p)
        (service demo chat).ports
service-Routes_example = service-Routes demo chat qwen config renders

count-init_data_hash_example :
    (12 ≤ count (hex_encode (demo.sha256 blob))) × (count (init_data_hash demo blob) ≡ 12)
count-init_data_hash_example = count-init_data_hash demo blob refl
