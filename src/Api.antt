-- ===== src/Api.antt =====
-- The custom resources (operator/api/v1alpha1).
pub mod Common
pub mod BrukModel
pub mod BrukTenant
pub mod InferenceService
pub mod Patterns
pub mod Admission
