-- ===== src/Sdk.antt =====
-- The Python SDK, sdk/python/python/casys_db: its query builder (query.py) and its entities (orm.py).
pub mod Expr
pub mod Lambdas
pub mod Entities
pub mod Source
pub mod Translate
pub mod Mapping
pub mod Builder
pub mod Gql
mod Tests
pub mod Instances
pub mod Loading
pub mod Session
