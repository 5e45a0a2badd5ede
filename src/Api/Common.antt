-- ===== src/Api/Common.antt =====
-- operator/api/v1alpha1/common_types.go
use bruk.Prelude.{String, Option}
use bruk.Platform.{Platform}

pub record LocalRef : Type 0 where
  pub name : String

pub record SecretKeyRef : Type 0 where
  pub name : String
  pub key : String

pub record EndpointStatus : Type 0 where
  pub url : String

module _ (K : Platform) where
  pub record ResourcePair : Type 0 where
    pub limit : K.Quantity
    pub request : Option K.Quantity
