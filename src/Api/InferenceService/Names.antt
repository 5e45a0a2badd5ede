-- ===== src/Api/InferenceService/Names.antt =====
-- The condition types and reasons of operator/api/v1alpha1/inferenceservice_types.go.
use bruk.Prelude.{String}

abbrev pub condition_configured : String
condition_configured = "Configured"

abbrev pub condition_workload_available : String
condition_workload_available = "WorkloadAvailable"

abbrev pub condition_ready : String
condition_ready = "Ready"

abbrev pub condition_progressing : String
condition_progressing = "Progressing"

abbrev pub reason_workload_ready : String
reason_workload_ready = "WorkloadReady"

abbrev pub reason_workload_pending : String
reason_workload_pending = "WorkloadPending"

abbrev pub reason_configured : String
reason_configured = "Configured"

abbrev pub reason_deploying : String
reason_deploying = "Deploying"

abbrev pub reason_model_not_found : String
reason_model_not_found = "ModelNotFound"

abbrev pub reason_tenant_config_missing : String
reason_tenant_config_missing = "TenantConfigMissing"

abbrev pub reason_trusted_store_conflict : String
reason_trusted_store_conflict = "TrustedStoreConflict"

abbrev pub reason_invalid_config : String
reason_invalid_config = "InvalidConfig"

abbrev pub reason_not_implemented : String
reason_not_implemented = "NotImplemented"
