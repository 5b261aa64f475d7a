-- ===== src/Lib.antt =====
-- KuzuEventBus: verification library of the Python backend (backend/src) and the Python SDK
-- (sdk/python).
--
-- The backend runs Cypher queries on tenants' Kuzu databases. The API saves a query as a transaction
-- and puts a message into a queue; a worker takes messages, brings the database to its disk, executes
-- the query, writes mutating ones to a write-ahead log (WAL) and settles the transaction; tenants ask
-- for status and results or cancel. Point-in-time recovery (PITR) restores a database from a snapshot
-- and the WAL. Accounts bound what a tenant may store. The SDK builds queries from Python lambdas and
-- maps nodes to entities.
--
-- Files and the code that they model, below backend/src, and for Sdk below
-- sdk/python/python/casys_db:
--   Prelude, Dict, Text    shared names, lists, dictionaries and strings (a string is its codes)
--   Jobs/Transactions      infrastructure/transactions/redis_transaction_repository.py: the hashes, the
--                          set of each tenant and the running set are the fields of `Store`
--   Jobs/Queue             infrastructure/queue/redis_queue_service.py: the stream and its group
--   Jobs/Locks             infrastructure/lock/redis_lock_service.py: a key with a token and an expiry
--   Jobs/World             the state that the API and the worker share
--   Jobs/Worker            infrastructure/workers/query_worker.py: `run_once`, its helpers and its
--                          except clauses, and `run_forever`; its children Answers, Checkout and Log
--                          hold the shapes of answers, `_ensure_local_db` and `_append_wal_entry`
--   Jobs/Executor          infrastructure/kuzu/kuzu_query_execution_adapter.py: `execute_query`
--   Jobs/Requests          application/usecases/submit_async_query.py, cancel_query.py,
--                          get_query_status.py and get_query_results.py
--   Pitr                   which snapshot and which WAL files: application/usecases/
--                          restore_database_pitr.py, preview_database_pitr.py, list_database_pitr.py
--   Pitr/Replay            the replay of WAL files by the restore and by the preview
--   Pitr/Preview           PreviewDatabasePITRUseCase.execute as a whole
--   Pitr/Restore           RestoreDatabasePITRUseCase.execute as a whole
--   Pitr/Timeline          application/usecases/list_database_pitr.py; its child Listing has the call
--   Tenants/Storage        StorageSize of domain/shared/value_objects.py
--   Tenants/Account        domain/tenant_management/customer_account.py
--   Tenants/Names          EmailAddress and TenantName of domain/shared/value_objects.py
--   Tenants/Registration   application/usecases/register_customer.py and the table of customers:
--                          infrastructure/database/tenant_repository.py
--   Branches               domain/branching/value_objects.py and
--                          application/usecases/branching/list_branches.py
--   Branches/Replay        the WAL replay of application/usecases/branching/create_branch.py
--   Databases/Tables       the tables of databases and snapshots: infrastructure/database/
--                          kuzu_database_repository.py, database_metadata_repository.py,
--                          snapshot_repository.py and the constraints of models.py
--   Databases/Files        domain/database_management/database_path_factory.py: files, directories
--                          and archives
--   Databases/Snapshots    application/usecases/create_database_snapshot.py and
--                          restore_database_from_snapshot.py over `Estate`, the shared state
--   Databases/Provision    application/usecases/provision_tenant_resources.py,
--                          delete_kuzu_database.py and branching/delete_branch.py,
--                          infrastructure/kuzu/kuzu_database_provisioning.py, and DatabaseName
--   Databases/Branching    application/usecases/branching/create_branch.py; its child Merge
--                          merge_branch.py
--   Databases/History      these use cases in any sequence
--   Catalog                infrastructure/database/query_catalog_repository.py: the tables are lists of
--                          rows and the SQL statements functions on them
--   Access                 infrastructure/auth/api_key_authentication_service.py
--   Access/Middleware      presentation/api/middleware/authentication.py
--   Access/Customers       application/usecases/create_customer_api_key.py and
--                          revoke_customer_api_key.py
--   Sdk/Expr, Sdk/Lambdas  query.py: `Expr`, and how a lambda is run on a variable to capture one
--   Sdk/Source, Sdk/Translate, Sdk/Mapping
--                          query.py: the translations of a lambda, by capture or from its source text
--   Sdk/Builder, Sdk/Gql   query.py: the builder's methods, and the requests that it sends
--   Sdk/Entities           orm.py: relations and entity classes
--   Sdk/Instances          orm.py: the attributes of an entity and the caches of relations
--   Sdk/Loading            orm.py: `with_relations` and `_hydrate_node`; its child Rows has the call
--   Sdk/Session            session.py: `save`, and queries by the name of a class
-- The files below a component hold its proofs, and its Tests concrete inputs at which the theorems
-- apply.
--
-- A state is a record, an operation takes it and returns its result with the state after it, and an
-- exception is a value. What the outside decides (times, fresh ids and tokens, the answers of Kuzu and
-- MinIO, the authorization service, which calls fail) is an argument: `Env` for a round of the worker,
-- `Call` for a restore to a time, and a call record for each use case on databases. The calls on Redis
-- that no argument lets fail are taken to succeed. UUIDs and keys are numbers that are only compared;
-- times are microseconds. A file operation that can leave a database lost half-way has its failure as an
-- argument too: the renames of a restore to a time, and the copying of a restore from a snapshot. The
-- extension of a lock is three calls of Redis, between which others may come. The worker's endless
-- loop is a list of rounds of any length, and other recursions are over a list. Fuel stands in three
-- places: the digits of a number (its value), the search for a free alias (one round more than there
-- are aliases: of so many candidates one is free) and the replacement of calls of `any` (the text's
-- length, since each round leaves a shorter text).
--
-- Not modelled: logging, notifications of a restore and the texts of events, which no state depends on;
-- the expiry of cached results and statuses; HTTP routes and data transfer objects, which are glue; the other Postgres adapters and those of MinIO and JWT, which are I/O; uploading a file;
-- the rows that a WAL entry carries, in the timeline; the directories that a restore has staged when it
-- fails; a half-written file, which counts as lost. A round of the worker is one step: the
-- interleaving of two workers within a round is not looked at. Sizes are whole bytes, where the source
-- has floats. Whether a character beyond ASCII is alphanumeric is an argument.
-- Of the SDK: warnings, the engine below it, negative limits and depths, lambdas without a parameter,
-- the operators of plain Python values (an argument, `Python`), assigning to the names under which an
-- entity keeps its own dicts (`_properties`, `_relations`, `_cache` and Python's own), and the choice among the ways to
-- declare a label.
pub mod Prelude
pub mod Dict
pub mod Text
pub mod Jobs
pub mod Pitr
pub mod Tenants
pub mod Branches
pub mod Catalog
pub mod Access
pub mod Databases
pub mod Sdk
