-- ===== src/Lib.antt =====
-- A verification library for the backend of the document-generation service (the package app/).
--
-- The program. Tenants (organizations) upload or build templates; users and API keys ask for documents; a worker
-- claims each queued job, renders it and stores the files; a billing service meters what is used, limits it by the
-- plan and invoices each period. All of them share one PostgreSQL database: a service opens one transaction
-- (app/core/database.py), works through repositories, and commits or rolls back.
--
-- How it is modelled. The tables are the record `Db` (Database), a list of rows for each table in the order of
-- insertion (Models). A method that runs in a session is a `Tx`, a function from the tables to a result and the new
-- tables; what it wrote is lost when it raises. A row that a method has loaded is written through its primary key; the
-- object is taken to be the row as it stands, so that a flush of the changed columns writes what the method sets. Only
-- `claim_for_processing` is also given older objects, those that its session holds already. A COMMIT is taken to succeed,
-- but for that of an upload of a template, whose answer is a parameter. Services run one after the other.
-- UUIDs are numbers, and new keys come from a counter. Timestamps are seconds, and the time that a method reads from
-- the clock is an argument, so are freshly generated secrets. Errors are the classes of app/core/exceptions.py (Result).
--
-- Parts and files:
--   Jobs        app/repositories/document_repository.py: the lifecycle of document jobs. `locked` is the set of rows
--               that other transactions hold (SKIP LOCKED). Lifecycle, Claim, Cache and Recovery hold the proofs.
--   Billing     app/services/billing_service.py and its repositories. Store has the queries and writes, Renewal the
--               invoices and the renewal loop, Snapshot `_ensure_snapshot`, Limits the checks and counters, Plans the
--               plan change and the billing cycle; Invoices, Rolling, Metering and PlanChange hold the proofs. The
--               renewal loop runs on fuel: two more than the month of the billing date, counted from the year 0, and
--               each round moves the period by a month, so it never runs out (Rolling).
--   Rendering   app/services/generation/docx_template_render_service.py: the replacement of spans in the runs of a
--               paragraph, and `prepare_payload`. Spans has the proofs of one replacement, Substitution those of all of
--               a paragraph, Values those of Payload.
--   Docx        app/services/docx_template_import_utils.py: the paths of paragraphs, on a document given by its
--               paragraphs, tables, rows and cells. Recursion is structural.
--   Access      app/api/dependencies/auth.py and authorization.py: memberships and role checks.
--   Auth        app/services/auth_service.py: Users reads a loaded user, Service has login, refresh and logout.
--   ApiKeys     app/services/api_key_service.py: Service has the keys, Counters the rate limits on Redis; Counting,
--               Quota and Credentials hold the proofs.
--   Text, Json, Constructor, Calendar, Audit, Prelude: strings as code points, JSON values, document blocks, dates,
--               the audit log, and the shared tests, lists and table lemmas. Fixtures has the tables of the examples.
--   StorageKeys app/services/storage/key_builder.py: the keys of stored objects, over Text. Separation has the proofs.
--   Artifacts   app/repositories/document_artifact_repository.py: the stored files of jobs. Expiry has the proof.
--   Maintenance app/services/maintenance_service.py: the cleanup of failed jobs. Its loop runs on fuel; one more than the
--               number of failed jobs past their retention is enough, since each batch that does not end the loop
--               deletes at least one (Cleanup and Retention).
--   Security    app/services/security_service.py: the check of a template's storage key, with the parts of a path from
--               StorageKeys, and Uploads with file names and uploaded files. Ownership has the proofs.
--   World       a service that works on the tables and on the outside world: `Io`, with a transaction that takes back
--               what was written to the tables and not what was written outside.
--   Storage     app/services/storage/minio.py over a MinIO client. Laws has the record of what an object
--               store promises, Tables lemmas on operations that do not touch the database.
--   Schema      the records of app/dtos/template.py that several parts share.
--   Import      app/services/docx_template_import_service.py and the validators of its requests in app/dtos/template.py.
--               Patterns has the regular expressions, Labels and Keys the names, Candidates the detection, Bindings the
--               schemas, Confirmation the bindings a client confirms or selects; Plain is about documents without
--               hyperlinks, whose text is that of their runs; Spans, Validity, Filling, Selecting
--               and Keys/Safe hold the proofs.
--   Templates   app/repositories/template_repository.py, template_version_repository.py, and
--               app/services/template_schema_service.py (Extraction) and template_service.py (Code, Responses, Service,
--               Ingestion). `squeeze` in Code runs on fuel, the length of the text, and each round that goes on
--               shortens it (Code/Slug).
--   Documents   app/services/document_service.py (Creation, Access), app/services/generation (Resolver, Mapper, Stored,
--               Filling, Processing) and app/services/document_verification_service.py (Verification). Images is the
--               image check of app/services/security_service.py. Footprint, Completion, Settlement and
--               Verification/Genuine hold the proofs.
--   Operations  app/services/operations_service.py: cache invalidation, disabling of users, and Replay.
--
-- Parameters. Password hashing, SHA-1 and SHA-256, the JWT encoding, the digests of cache keys, Unicode tables and
-- `str.lower`, the MinIO client and the message broker, the reading and saving of DOCX files, their zip and XML parts, and
-- the results of the composer and the PDF renderer are arguments of the definitions that use them. Fixtures/Outside gives
-- concrete ones, among them an object store that keeps what is put into it, and the examples run on them.
--
-- Not modelled: the HTTP layer (app/api/routers, controllers, most of dtos), the layout of DOCX and PDF files by
-- python-docx and reportlab, the Celery tasks of app/workers, health checks, configuration, logging and metrics, migrations
-- and scripts, the frontend, and the copy of the repository under _runrepo. Of the maintenance service only the cleanup of
-- failed jobs is modelled, of the operations service not the lists that only read rows.
pub mod Prelude
pub mod Result
pub mod Calendar
pub mod Json
pub mod Constructor
pub mod Models
pub mod Database
pub mod Fixtures
pub mod Audit
pub mod Jobs
pub mod Billing
pub mod Text
pub mod Docx
pub mod Access
pub mod Auth
pub mod ApiKeys
pub mod Rendering
pub mod StorageKeys
pub mod Artifacts
pub mod Maintenance
pub mod Security
pub mod World
pub mod Schema
pub mod Storage
pub mod Import
pub mod Templates
pub mod Documents
pub mod Operations
