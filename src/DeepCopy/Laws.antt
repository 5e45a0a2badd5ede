-- ===== src/DeepCopy/Laws.antt =====
-- The copies of operator/api/v1alpha1/zz_generated.deepcopy.go are deep.
pub mod Model
pub mod Service
pub mod Structs
