-- ===== src/Records.antt =====
-- internal/backend/storage_records.go, path_config.go, internal/outbox, internal/domain and
-- internal/providers/provider.go: the stored records, their enumerations and constants.
--
-- A time is a number of nanoseconds since the year 1 in UTC, Go's zero time being 0. A stored time
-- string is a `Stamp`: empty, an RFC 3339 string of whole seconds, or a string that does not parse.
-- The strings are UTC with a year of four digits, so that they order as their numbers do.
use openbao_plugin_secrets_s.Prelude.{
  ℕ, ◌+◌, ◌*◌, ◌/◌, ◌≤◌, Bool, true, false, List, Option, none, some, String, Comparable, arith,
  ℕ_discrete, string_discrete, eq_of_discrete,
}

pub data Stamp : Type 0 where
  blank : Stamp
  stamp : ℕ → Stamp
  malformed : String → Stamp

abbrev pub second : ℕ
second = 1_000_000_000

abbrev pub minute : ℕ
minute = 60 * second

-- `t.Format(time.RFC3339)` drops what is below the second.
abbrev pub format_time : ℕ → Stamp
format_time t = stamp (t / second)

-- `time.Parse(timeFormatRFC3339, value)`.
abbrev pub parse_time : Stamp → Option ℕ
parse_time (stamp s) = some (s * second)
parse_time blank = none
parse_time (malformed v) = none

pub data OperationType : Type 0 where
  upsert delete : OperationType
  unknown_type : String → OperationType

pub data OutboxState : Type 0 where
  pending retry_wait failed_terminal canceled : OutboxState
  blank_state : OutboxState
  other_state : String → OutboxState

pub data ErrorClass : Type 0 where
  validation authn authz rate_limit unavailable : ErrorClass
  collision ownership drift capacity internal : ErrorClass
  blank_class : ErrorClass
  other_class : String → ErrorClass

pub data SyncState : Type 0 where
  unknown no_association pending_sync synced drifted remote_missing : SyncState
  remote_ownership_lost remote_conflict destination_auth_error : SyncState
  destination_policy_error destination_rate_limited destination_unavailable : SyncState
  validation_error queue_blocked disabled_sync internal_error : SyncState

abbrev pub outbox_trigger_user : String
outbox_trigger_user = "user"

abbrev pub outbox_trigger_drift_repair : String
outbox_trigger_drift_repair = "drift-repair"

pub record OutboxRecord : Type 0 where
  pub id : String
  pub type : OperationType
  pub path : String
  pub version : ℕ
  pub association_id : String
  pub object_id : String
  pub destination_ref : String
  pub state : OutboxState
  pub attempts : ℕ
  pub not_before : Stamp
  pub created_time : Stamp
  pub updated_time : Stamp
  pub idempotency_key : String
  pub trigger : String
  pub claim_owner : String
  pub claim_expires_time : Stamp
  pub claim_attempt : ℕ

pub record StatusRecord : Type 0 where
  pub path : String
  pub version : ℕ
  pub association_id : String
  pub object_id : String
  pub destination_ref : String
  pub resolved_name : String
  pub state : SyncState
  pub payload_sha256 : String
  pub remote_version : String
  pub verification : String
  pub last_operation_id : String
  pub last_success_time : Stamp
  pub last_reconcile_time : Stamp
  pub last_drift_detected_time : Stamp
  pub last_repair_time : Stamp
  pub repair_count : ℕ
  pub last_error_class : ErrorClass
  pub last_error : String
  pub updated_time : Stamp

-- A JSON value of a source secret: a string, or any other value by its text.
pub data SecretValue : Type 0 where
  text : String → SecretValue
  other_json : String → SecretValue

abbrev pub SecretPayload : Type 0
SecretPayload = List (String × SecretValue)

pub record VersionRecord : Type 0 where
  pub version : ℕ
  pub created_time : Stamp
  pub payload : SecretPayload
  pub deletion_time : Stamp
  pub destroyed : Bool

pub record VersionMetadata : Type 0 where
  pub created_time : Stamp
  pub deletion_time : Stamp
  pub destroyed : Bool

-- `versions` is the Go map by its entries; its keys are the decimal strings of the numbers.
pub record MetadataRecord : Type 0 where
  pub generation : String
  pub current_version : ℕ
  pub oldest_version : ℕ
  pub max_versions : ℕ
  pub cas_required : Bool
  pub delete_version_after : String
  pub source_sync_enabled : Bool
  pub custom_metadata : List (String × String)
  pub versions : List (ℕ × VersionMetadata)
  pub updated_time : Stamp

pub record EnqueueIntentOperation : Type 0 where
  pub id : String
  pub type : OperationType
  pub association_id : String
  pub object_id : String
  pub destination_ref : String
  pub not_before : Stamp
  pub idempotency_key : String
  pub trigger : String

pub record EnqueueIntentRecord : Type 0 where
  pub path : String
  pub generation : String
  pub version : ℕ
  pub operations : List EnqueueIntentOperation
  pub cancel_operation_ids : List String
  pub created_time : Stamp
  pub updated_time : Stamp

pub record AssociationRecord : Type 0 where
  pub id : String
  pub path : String
  pub destination_type : String
  pub destination_name : String
  pub destination_ref : String
  pub name_template : String
  pub resolved_name : String
  pub reservation_names : List String
  pub granularity : String
  pub format : String
  pub data_mapping : String
  pub data_key_template : String
  pub provider_config : List (String × String)
  pub provider_identity : String
  pub delete_mode : String
  pub enabled : Bool
  pub created_time : Stamp
  pub updated_time : Stamp

pub record DestinationRecord : Type 0 where
  pub type : String
  pub name : String
  pub description : String
  pub disabled : Bool
  pub config : List (String × String)
  pub sensitive_config_version : String
  pub allowed_source_path_prefixes : List String
  pub allowed_resolved_name_prefixes : List String
  pub created_time : Stamp
  pub updated_time : Stamp

-- The part of a destination's configuration that is stored apart from its record.
pub record DestinationSensitiveRecord : Type 0 where
  pub type : String
  pub name : String
  pub config : List (String × String)
  pub created_time : Stamp
  pub updated_time : Stamp

pub record GlobalConfig : Type 0 where
  pub security_posture : String
  pub disabled : Bool
  pub restore_guard : Bool
  pub restore_guard_acknowledged_time : Stamp
  pub queue_capacity : ℕ
  pub drift_repair : String
  pub drift_reconcile_interval : String
  pub drift_reconcile_batch : ℕ
  pub event_dispatch_enabled : Bool
  pub event_dispatch_max_operations : ℕ
  pub updated_time : Stamp

pub record StorageSchemaRecord : Type 0 where
  pub version : ℕ
  pub min_compatible_version : ℕ
  pub created_time : Stamp
  pub updated_time : Stamp

pub record RestoreEpochRecord : Type 0 where
  pub epoch : String
  pub created_time : Stamp
  pub updated_time : Stamp

-- A stored second, read back, is at most the time that was formatted, and less than one second
-- below it.
pub parse-format : (t : ℕ) → (t / second * second ≤ t) × (t ≤ t / second * second + second)
parse-format t = omega arith

unfoldable pub Stamp-discrete : Discrete Stamp
unfolding ℕ_discrete string_discrete
Stamp-discrete = hlevel (ℕ_discrete, string_discrete)

unfoldable pub OperationType-discrete : Discrete OperationType
unfolding string_discrete
OperationType-discrete = hlevel string_discrete

unfoldable pub OutboxState-discrete : Discrete OutboxState
unfolding string_discrete
OutboxState-discrete = hlevel string_discrete

unfoldable pub OutboxRecord-discrete : Discrete OutboxRecord
unfolding ℕ_discrete string_discrete Stamp-discrete OperationType-discrete OutboxState-discrete
OutboxRecord-discrete =
    hlevel
      (ℕ_discrete, string_discrete, Stamp-discrete, OperationType-discrete, OutboxState-discrete)

unfoldable pub VersionMetadata-discrete : Discrete VersionMetadata
unfolding Stamp-discrete
VersionMetadata-discrete = hlevel Stamp-discrete

instance abbrev pub stamp_eq : Comparable Stamp
stamp_eq = eq_of_discrete Stamp-discrete

instance abbrev pub outbox_record_eq : Comparable OutboxRecord
outbox_record_eq = eq_of_discrete OutboxRecord-discrete

abbrev pub is_upsert : OperationType → Bool
is_upsert upsert = true
is_upsert _ = false

abbrev pub is_delete : OperationType → Bool
is_delete delete = true
is_delete _ = false

abbrev pub is_blank : Stamp → Bool
is_blank blank = true
is_blank _ = false
