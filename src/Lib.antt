-- ===== src/Lib.antt =====
-- The back end of a file extractor (app/): a task asks an external API for the names of files,
-- downloads them as zip archives in batches of three, stores each file and its hash, and confirms
-- the batch to the API.
--
-- The parts and their files:
-- - Base: shared names, integers, dictionaries, the exceptions of app/domain/exceptions.py and
--   app/application/exceptions.py (Base/Errors), and the programs that may raise and that keep the
--   state also then (Base/Exec), with a logic of pre- and postconditions (Base/Exec/Ensures).
-- - Domain: app/domain. Domain/Task is `DownloadTask` of entities/download_task.py, a function for
--   each method; Task/Lifecycle and Task/Consistency follow its status and its fields. Domain/File
--   is `File` of entities/file.py; Domain/Hash, Domain/Size and Domain/Status are the value objects.
-- - Retry: `AsyncRetryExecutor` and `with_retry` of app/utils/retry.py.
-- - Client: `CatalogClient` of app/infrastructure/external_api/catalog_client.py (Client/Requests)
--   with `AdaptiveRateLimiter` of app/utils/rate_limiter.py (Client/Limiter), and its download of an
--   archive by way of a temporary file (Client/Stream). Client/Outcomes, Client/Temporary and
--   Client/Clean hold the proofs.
-- - Archive: `ZipProcessor` of app/infrastructure/processors/zip_processor.py.
-- - Storage: `S3Storage` of app/infrastructure/storage/s3_storage.py.
-- - Uow: `SQLAlchemyUnitOfWork` of app/infrastructure/database/sqlalchemy_uow.py, as a block of code.
-- - Download: app/application/handlers/download_handler.py. Download/Ports is the record of what the
--   handlers are given; State, Files, Batch and Loop are `ProcessFilesHandler`, from its private
--   methods to `execute`; Start is `StartDownloadHandler`. Counts and Keeps hold the proofs.
-- - Repositories: app/infrastructure/database. Repositories/Rows has the rows of models.py and
--   their translation; Repositories/Tasks and Repositories/Files are `SQLAlchemyTaskRepository` and
--   `SQLAlchemyFileRepository` of repositories.py, Repositories/Wiring puts both among the ports.
--   Repositories/Claims relates what is claimed and reclaimed to the methods of the entity,
--   Repositories/Exclusive has the calls of many workers on one table as steps, Repositories/Saved
--   what saving a task does to the rows, and Repositories/Pages the pages of a listing.
-- - Worker: app/worker. Worker is `process_files_task` of celery_tasks.py, which claims a task and
--   runs the handler of Download on it, and both jobs of watchdog.py. Worker/Parts gives the handler
--   the client, the archive reader and the storage of the components above, each on its own part of
--   the world. Queue, Once, Clean and Whole hold the proofs.
-- - Api: the functions of app/presentation/api/routes.py and the responses of
--   app/presentation/schemas/responses.py. Api/Rows and Api/Started follow a reply through the
--   handler, the unit of work and the repository down to the row.
-- - Schema: app/migrations/versions and the tables of app/infrastructure/database/models.py.
--   Schema/Revisions has `upgrade` and `downgrade` of each revision, Schema/Models what the models
--   declare, Schema/Effects what the operations of alembic need and what they do to a table, its
--   columns and its constraints, and Schema/Rules a rule for each. Schema/Migrated, Schema/Widened and
--   Schema/Undone hold the proofs. The rows of a table are left out.
-- - Statistics: app/application/handlers/calculate_stats.py (Digits, Totals, and Unordered for the
--   files as a multiset) and statistics_handler.py (Files).
--
-- Conventions. A method of a mutable object is a function of the object that gives the result, or
-- the exception, and the object as it then is; a call of a port takes the state of the world and
-- gives the next one, also when it raises. Python's `int` is ℤ where it can be negative, and ℕ where
-- it only counts. `datetime.now(UTC)` is an argument or a port; a time is a number of microseconds.
-- A float of the rate limiter is an element of an abstract order with the operations that the
-- limiter uses; a delay of the retries is in hundredths of a second. Logging is left out.
--
-- Fuel. `while True:` in `_run` and in `AsyncRetryExecutor.execute` runs on fuel, a unit for each
-- iteration, and the end of the fuel is a value of its own (`exhausted`, `going_on`). For the
-- retries, a fuel above the sum of both limits is enough unless a limit is negative; the calls of the
-- client in Worker/Parts get one unit more than that sum. `_run`
-- goes on for as long as the API gives names, so no fuel is enough for every API; an iteration that
-- goes on has processed a file at least, so a fuel above the number of the files that are processed
-- is enough. The reads of a temporary file run on fuel one above the number of its bytes, which is
-- enough.
--
-- A statement of SQL is a condition and an assignment, both functions of a row, that the session
-- runs; that an UPDATE returns only rows that had its condition is a hypothesis of the theorems.
--
-- What a library or a service does is a parameter, with the laws that a theorem needs in a record
-- beside it: `Table` for the rows of the tasks, `Returns` for those that an UPDATE returns,
-- `HoldsRows` for the session of a request beside what is committed, `Queue` for the message queue,
-- `Bucket` for the object storage, `Temporaries` for the files of the system, `Transactions` for
-- commit and roll-back, `Erases` for the deletions of a clean-up, `Apart` and `Opens` for the
-- client beside the rest of the world, `Does` for the operations of alembic.
--
-- Not modelled: the event loops and the routing, the set-up of the process, logging and the start of
-- alembic, which declare things to libraries and decide nothing; the domain events, which no operation
-- reads; and `get_session` of app/infrastructure/database/session.py, which nothing calls.
pub mod Base
pub mod Domain
pub mod Retry
pub mod Client
pub mod Download
pub mod Repositories
pub mod Statistics
pub mod Uow
pub mod Worker
pub mod Schema
pub mod Archive
pub mod Storage
pub mod Api
