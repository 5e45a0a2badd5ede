-- ===== src/DeepCopy.antt =====
-- operator/api/v1alpha1/zz_generated.deepcopy.go on a memory of cells.
pub mod Memory
pub mod Layout
pub mod Cells
pub mod Functions
pub mod Objects
pub mod Common
pub mod Model
pub mod Tenant
pub mod Resources
pub mod Service
pub mod See
pub mod Laws
pub mod Structs
pub mod Dispatch
