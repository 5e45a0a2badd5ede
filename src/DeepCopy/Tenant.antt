-- ===== src/DeepCopy/Tenant.antt =====
-- operator/api/v1alpha1/zz_generated.deepcopy.go: the copies of BrukTenant and its structs.
use bruk.Prelude.{Option}
use bruk.Api.BrukTenant.{InfrastructureConfig, EngineDefaults, ConfidentialConfig, BrukTenantSpec}
use bruk.DeepCopy.Layout.{Library, BrukTenantStatusLayout, BrukTenantLayout, BrukTenantListLayout}
use bruk.DeepCopy.Cells.{
  Cell, stored_infrastructure_config, stored_engine_defaults, stored_confidential_config,
  stored_bruk_tenant_spec, stored_bruk_tenant_status, stored_bruk_tenant, stored_bruk_tenant_list,
  stored_conditions, stored_bruk_tenants,
}
use bruk.DeepCopy.Memory.{◌>>=◌, M, Pointer, pure, copy_pointer, copy_each}
use bruk.DeepCopy.Functions.{Functions}
use bruk.DeepCopy.Objects.{Object, object_of, a_bruk_tenant, a_bruk_tenant_list}

module _ {L : Library} (F : Functions L) where
  -- `InfrastructureConfig.DeepCopyInto`
  unfoldable pub infrastructure_config_into : InfrastructureConfig → M (Cell L) InfrastructureConfig
  infrastructure_config_into this = pure this

  -- `InfrastructureConfig.DeepCopy`
  unfoldable pub infrastructure_config_copy : Pointer → M (Cell L) Pointer
  infrastructure_config_copy =
      copy_pointer (stored_infrastructure_config L) infrastructure_config_into

  -- `EngineDefaults.DeepCopyInto`
  unfoldable pub engine_defaults_into : EngineDefaults → M (Cell L) EngineDefaults
  engine_defaults_into this = pure this

  -- `EngineDefaults.DeepCopy`
  unfoldable pub engine_defaults_copy : Pointer → M (Cell L) Pointer
  engine_defaults_copy = copy_pointer (stored_engine_defaults L) engine_defaults_into

  -- `ConfidentialConfig.DeepCopyInto`
  unfoldable pub confidential_config_into : ConfidentialConfig → M (Cell L) ConfidentialConfig
  confidential_config_into this = pure this

  -- `ConfidentialConfig.DeepCopy`
  unfoldable pub confidential_config_copy : Pointer → M (Cell L) Pointer
  confidential_config_copy = copy_pointer (stored_confidential_config L) confidential_config_into

  -- `BrukTenantSpec.DeepCopyInto`
  unfoldable pub bruk_tenant_spec_into : BrukTenantSpec → M (Cell L) BrukTenantSpec
  bruk_tenant_spec_into this = pure this

  -- `BrukTenantSpec.DeepCopy`
  unfoldable pub bruk_tenant_spec_copy : Pointer → M (Cell L) Pointer
  bruk_tenant_spec_copy = copy_pointer (stored_bruk_tenant_spec L) bruk_tenant_spec_into

  -- `BrukTenantStatus.DeepCopyInto`
  unfoldable pub bruk_tenant_status_into :
      BrukTenantStatusLayout → M (Cell L) BrukTenantStatusLayout
  bruk_tenant_status_into this = do
    conditions ← copy_pointer (stored_conditions L) (copy_each F.condition_into) this.conditions
    pure (record this { conditions = conditions })

  -- `BrukTenantStatus.DeepCopy`
  unfoldable pub bruk_tenant_status_copy : Pointer → M (Cell L) Pointer
  bruk_tenant_status_copy = copy_pointer (stored_bruk_tenant_status L) bruk_tenant_status_into

  -- `BrukTenant.DeepCopyInto`
  unfoldable pub bruk_tenant_into : BrukTenantLayout L → M (Cell L) (BrukTenantLayout L)
  bruk_tenant_into this = do
    metadata ← F.object_meta_into this.metadata
    status ← bruk_tenant_status_into this.status
    pure (record this { metadata = metadata; status = status })

  -- `BrukTenant.DeepCopy`
  unfoldable pub bruk_tenant_copy : Pointer → M (Cell L) Pointer
  bruk_tenant_copy = copy_pointer (stored_bruk_tenant L) bruk_tenant_into

  -- `BrukTenant.DeepCopyObject`
  unfoldable pub bruk_tenant_object : Pointer → M (Cell L) (Option Object)
  bruk_tenant_object = object_of a_bruk_tenant bruk_tenant_copy

  -- `BrukTenantList.DeepCopyInto`
  unfoldable pub bruk_tenant_list_into :
      BrukTenantListLayout L → M (Cell L) (BrukTenantListLayout L)
  bruk_tenant_list_into this = do
    metadata ← F.list_meta_into this.metadata
    items ← copy_pointer (stored_bruk_tenants L) (copy_each bruk_tenant_into) this.items
    pure (record this { metadata = metadata; items = items })

  -- `BrukTenantList.DeepCopy`
  unfoldable pub bruk_tenant_list_copy : Pointer → M (Cell L) Pointer
  bruk_tenant_list_copy = copy_pointer (stored_bruk_tenant_list L) bruk_tenant_list_into

  -- `BrukTenantList.DeepCopyObject`
  unfoldable pub bruk_tenant_list_object : Pointer → M (Cell L) (Option Object)
  bruk_tenant_list_object = object_of a_bruk_tenant_list bruk_tenant_list_copy
