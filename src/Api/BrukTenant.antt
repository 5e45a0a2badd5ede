-- ===== src/Api/BrukTenant.antt =====
-- operator/api/v1alpha1/bruktenant_types.go
use bruk.Prelude.{String, List}
use bruk.Prelude.Int.{ℤ}
use bruk.Platform.{Platform}
use bruk.Kube.Condition.{Condition}
use bruk.Kube.Meta.{TypeMeta, ObjectMeta, ListMeta}

abbrev pub bruk_tenant_name : String
bruk_tenant_name = "cluster"

abbrev pub reason_valid : String
reason_valid = "Valid"

abbrev pub reason_token_secret_missing : String
reason_token_secret_missing = "TokenSecretMissing"

abbrev pub reason_unpinned_revision : String
reason_unpinned_revision = "UnpinnedRevision"

pub record InfrastructureConfig : Type 0 where
  pub node_hostname : String
  pub storage_volume_group : String

pub record EngineDefaults : Type 0 where
  pub default_image : String

pub record ConfidentialConfig : Type 0 where
  pub init_data_b64 : String

pub record BrukTenantSpec : Type 0 where
  pub tenant_id : String
  pub display_name : String
  pub infrastructure : InfrastructureConfig
  pub engine : EngineDefaults
  pub confidential : ConfidentialConfig

pub record BrukTenantStatus : Type 0 where
  pub observed_generation : ℤ
  pub conditions : List Condition
  pub applied_init_data_hash : String

module _ (K : Platform) where
  pub record BrukTenant : Type 0 where
    pub type_meta : TypeMeta
    pub metadata : ObjectMeta K
    pub spec : BrukTenantSpec
    pub status : BrukTenantStatus

  pub record BrukTenantList : Type 0 where
    pub type_meta : TypeMeta
    pub metadata : ListMeta
    pub items : List BrukTenant
