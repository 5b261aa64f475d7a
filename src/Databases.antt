-- ===== src/Databases.antt =====
-- Tenants' databases: the tables `kuzu_databases` and `kuzu_db_snapshots`, the files on disk, the
-- objects in MinIO, and the use cases on them (backend/src/application/usecases).
pub mod Tables
pub mod Unique
pub mod Files
pub mod Snapshots
pub mod Provision
pub mod Branching
pub mod History
mod Tests
