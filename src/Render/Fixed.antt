-- ===== src/Render/Fixed.antt =====
-- The fixed boilerplate of operator/internal/render/render.go.
use bruk.Prelude.{String}
use bruk.Prelude.Int.{ℤ, pos}

abbrev pub runtime_class_name : String
runtime_class_name = "kata-qemu-nvidia-gpu-snp"

abbrev pub init_data_annotation : String
init_data_annotation = "io.katacontainers.config.hypervisor.cc_init_data"

abbrev pub trusted_store_device_path : String
trusted_store_device_path = "/dev/trusted_store"

abbrev pub weights_cache_mount_path : String
weights_cache_mount_path = "/root/.cache/huggingface"

abbrev pub gai_config_map_name : String
gai_config_map_name = "gai-ipv4-first"

abbrev pub serving_port : ℤ
serving_port = pos 8000

abbrev pub container_name : String
container_name = "vllm"

abbrev pub dshm_size_limit : String
dshm_size_limit = "8Gi"

abbrev pub default_failure_threshold : ℤ
default_failure_threshold = pos 120

abbrev pub weights_cache_failure_threshold : ℤ
weights_cache_failure_threshold = pos 240

abbrev pub readiness_initial_delay_seconds : ℤ
readiness_initial_delay_seconds = pos 60

abbrev pub readiness_period_seconds : ℤ
readiness_period_seconds = pos 10

abbrev pub gpu_resource_name : String
gpu_resource_name = "nvidia.com/pgpu"

abbrev pub no_init_data_text : String
no_init_data_text =
    "no initdata blob: refusing to render a CC pod without the mirror-redirect annotation"
