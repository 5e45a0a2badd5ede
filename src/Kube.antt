-- ===== src/Kube.antt =====
-- The Kubernetes objects that the operator reads and writes, with the fields that it uses.
pub mod Condition
pub mod Meta
pub mod Workload
