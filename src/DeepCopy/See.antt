-- ===== src/DeepCopy/See.antt =====
-- What the structs of operator/api/v1alpha1/*_types.go in memory denote.
pub mod Model
pub mod Service
