-- ===== src/Tenants.antt =====
-- Tenant management: storage sizes, customer accounts, and the names that identify a tenant.
pub mod Storage
pub mod Account
pub mod Names
pub mod Registration
mod Tests
