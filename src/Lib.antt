-- ===== src/Lib.antt =====
-- The sync engine of the OpenBao secrets-sync plugin: source secrets with versions are kept in the
-- plugin's storage and copied to destinations by a durable outbox.
--
-- A write of a source secret (internal/backend/path_data.go) stores a version, and for each enabled
-- association of the path it puts an operation into the outbox (enqueue.go, storage_outbox.go). The
-- dispatcher (dispatcher.go) claims the operations that are due, calls the provider of the destination,
-- and records the outcome: a status, a retry, or a terminal failure. An enqueue intent is stored before
-- a change and deleted after it; recovery.go completes the changes whose intents are left.
--
-- How the program is modelled. The storage (logical.Storage of the OpenBao SDK), the clock and the random
-- source are the record `Storage.Env`, whose laws are their documented behaviour: a read gives what is
-- stored, a listing has the names that are stored, a write is applied when it returns, and may or may not
-- be applied when it fails. Any call may fail. A method of the backend is a function from the state of the service to a result, a value or an
-- error, and the state that it leaves (`Storage.M`). A storage key is a constructor of `Storage.Key` in
-- place of the text that the source builds, and a stored entry is a record in place of its JSON. The
-- digests, encodings and time.ParseDuration are the record `Payload.Codec`, and the providers are those of
-- `Providers.Plugin`. Times are nanoseconds since the zero time; a formatted time is a whole second
-- (`Records.Stamp`), as RFC 3339 without fractions is. Durations of the retry schedule are 64-bit patterns.
-- A function is one run of the code under its locks, on a storage that may fail at each step, which
-- covers storages without transactions; only the writes of the configuration are also modelled with them.
--
-- Files and code:
--   Records: the records of internal/backend/storage_records.go and the enums of internal/outbox,
--     internal/domain and internal/providers/provider.go.
--   Storage, Storage.Keeps, Storage.Triples, Storage.Reading: the service, and the logic for its actions;
--     Storage.Faultless: a service whose calls do not fail.
--   Outbox.Records, Outbox.Listing, Outbox.Pruning: internal/backend/storage_outbox.go.
--   Status: storage_status.go. Config, ConfigRequests: path_config.go. Storage.Transactions:
--     logical.WithTransaction, a parameter.
--   Source: storage_source.go. Naming: granularity.go, association_policy.go, normalizeSourcePath.
--   Text: functions of Go's strings package that these use. Payload: internal/payload/payload.go.
--   Associations: storage_association.go and storage_destination.go; Associations.Reservations: names.
--   Operations, Enqueue: enqueue.go and association_enqueue.go. Recovery: recovery.go. Data: path_data.go.
--   Deletion: path_versions.go and pathDataDelete. RuntimeState: runtime_state.go. Queue: path_queue.go.
--   Requests: the fields of a request (framework.FieldData). Providers: internal/providers/provider.go.
--   DestinationFields, Destinations: path_destinations.go. AssociationFields, AssociationWrites,
--   AssociationRequests, AssociationRequests.Lifecycle: path_associations.go. Associations.StoredConfig:
--   the configuration of a destination as one value, which its write refines. Associations.Configured: that
--   configuration key by key.
--   Reconcile, Reconcile.Objects: path_reconcile.go. PeriodicReconcile: periodic_reconcile.go.
--   Dispatch.Retry, Dispatch.Claims, Dispatch.Outcomes, Dispatch.Targets, Dispatch.Process: dispatcher.go.
--   Scenarios: the theorems at concrete data, on a storage that is a list of entries.
-- Below a module stand the modules that prove what its name says.
--
-- Bounds and fuel: `Text.itoa` alone runs on fuel, of n + 1 steps for a number n, which are enough by
-- `Text.itoa_from_enough`. Every other loop of the modelled code runs over a list that is
-- given. Go's int is a natural number where the code keeps it non-negative.
--
-- Not modelled: the routing of requests and the form of their responses, telemetry and logging, the
-- remote calls of the providers (AWS, GitLab, Kubernetes), the event-driven trigger of the dispatcher, the
-- requests for metadata and for the switch of source sync, the migration of a stored configuration with
-- missing fields, and the plans and diagnostics that only report.
pub mod ConfigRequests
pub mod Prelude
pub mod Records
pub mod Storage
pub mod Outbox
pub mod Status
pub mod Config
pub mod Source
pub mod Text
pub mod Naming
pub mod Payload
pub mod Associations
pub mod Operations
pub mod Enqueue
pub mod Recovery
pub mod Data
pub mod RuntimeState
pub mod Providers
pub mod Requests
pub mod DestinationFields
pub mod Destinations
pub mod AssociationFields
pub mod AssociationRequests
pub mod AssociationWrites
pub mod Reconcile
pub mod PeriodicReconcile
pub mod Dispatch
pub mod Queue
pub mod Scenarios
pub mod Deletion
