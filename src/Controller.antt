-- ===== src/Controller.antt =====
-- The three reconcilers (operator/internal/controller).
pub mod Conflict
pub mod Status
pub mod Inference
pub mod Tenant
pub mod Model
pub mod Watches
pub mod System
pub mod Hashes
