-- ===== src/Dispatch/Outcomes.antt =====
-- dispatcher.go: what becomes of a claimed operation, locally, after success or failure.
pub mod Fencing
pub mod Schedule
use openbao_plugin_secrets_s.Prelude.{
  ℕ, suc, ◌+◌, Bool, true, false, Option, none, some, String, ◌==◌, if◌then◌else◌, string_eq,
}
use Prim.Native.String.{◌++◌ as string_append}
use openbao_plugin_secrets_s.Records.{
  Stamp, blank, format_time, ErrorClass, validation, authn, authz, rate_limit, unavailable,
  collision, ownership, drift, capacity, internal, blank_class, other_class, SyncState, synced,
  drifted, remote_missing, remote_ownership_lost, remote_conflict, destination_auth_error,
  destination_policy_error, destination_rate_limited, destination_unavailable, validation_error,
  queue_blocked, internal_error, retry_wait, failed_terminal, OutboxRecord, StatusRecord,
  outbox_trigger_drift_repair,
}
use openbao_plugin_secrets_s.Storage.{Env, M, ◌>>=◌, ◌>>◌, pure, option}
use openbao_plugin_secrets_s.Outbox.Records.{put_outbox, delete_outbox, outbox_trigger}
use openbao_plugin_secrets_s.Status.{get_status, put_status}
use openbao_plugin_secrets_s.Payload.{CanonicalPayload}
use openbao_plugin_secrets_s.Dispatch.Claims.{clear_outbox_claim, commit_if_outbox_claim_held}
use openbao_plugin_secrets_s.Dispatch.Retry.{should_retry_automatically, retry_delay}

pub record OperationFailure : Type 0 where
  pub class : ErrorClass
  pub message : String
  pub resolved_name : String
  pub payload_sha256 : String

unfoldable pub sync_state_for_failure_class : ErrorClass → SyncState
sync_state_for_failure_class authn = destination_auth_error
sync_state_for_failure_class authz = destination_policy_error
sync_state_for_failure_class rate_limit = destination_rate_limited
sync_state_for_failure_class unavailable = destination_unavailable
sync_state_for_failure_class ownership = remote_ownership_lost
sync_state_for_failure_class collision = remote_conflict
sync_state_for_failure_class drift = drifted
sync_state_for_failure_class validation = validation_error
sync_state_for_failure_class capacity = queue_blocked
sync_state_for_failure_class _ = internal_error

abbrev pub class_or_internal : ErrorClass → ErrorClass
class_or_internal blank_class = internal
class_or_internal c = c

-- The record that a failure leaves: queued again after a delay, or terminal.
unfoldable pub failed_record : OutboxRecord → ErrorClass → ℕ → OutboxRecord
failed_record r class now =
    let counted : OutboxRecord = record r { attempts = suc r.attempts } in
    let retried = should_retry_automatically class counted.attempts in
    clear_outbox_claim (record counted {
      state = if retried then retry_wait else failed_terminal;
      not_before =
          if retried
          then format_time (now + retry_delay (record counted { state = retry_wait }))
          else blank;
      updated_time = format_time now;
    })

-- A status with the fields of an operation, and the others empty.
abbrev pub operation_status : OutboxRecord → String → SyncState → Stamp → StatusRecord
operation_status r resolved_name state now = record {
  path = r.path;
  version = r.version;
  association_id = r.association_id;
  object_id = r.object_id;
  destination_ref = r.destination_ref;
  resolved_name = resolved_name;
  state = state;
  payload_sha256 = "";
  remote_version = "";
  verification = "";
  last_operation_id = r.id;
  last_success_time = blank;
  last_reconcile_time = blank;
  last_drift_detected_time = blank;
  last_repair_time = blank;
  repair_count = 0;
  last_error_class = blank_class;
  last_error = "";
  updated_time = now;
}

unfoldable pub failure_status : OutboxRecord → OperationFailure → ℕ → StatusRecord
unfolding sync_state_for_failure_class
failure_status r failure now =
    let class = class_or_internal failure.class in
    let name = if failure.resolved_name == "" then r.path else failure.resolved_name in
    let base : StatusRecord =
      operation_status r name (sync_state_for_failure_class class) (format_time now) in
    record base {
      payload_sha256 = failure.payload_sha256;
      last_error_class = class;
      last_error = string_append "dispatch failed: " failure.message;
    }

-- `record.Attempts++`, the new time, and the claim given up.
abbrev pub finished_record : OutboxRecord → ℕ → OutboxRecord
finished_record r now =
    clear_outbox_claim (record r { attempts = suc r.attempts; updated_time = format_time now })

abbrev repair_count_of : Option StatusRecord → ℕ
repair_count_of none = 0
repair_count_of (some s) = s.repair_count

unfoldable pub success_status :
    OutboxRecord → String → CanonicalPayload → String → ℕ → Option StatusRecord → StatusRecord
success_status r resolved_name payload remote_version now existing =
    let base : StatusRecord = operation_status r resolved_name synced (format_time now) in
    let done : StatusRecord = record base {
      payload_sha256 = payload.sha256;
      remote_version = remote_version;
      last_success_time = format_time now;
    } in
    if outbox_trigger r == outbox_trigger_drift_repair
    then record done {
      last_repair_time = format_time now;
      repair_count = suc (repair_count_of existing);
    }
    else done

unfoldable pub deleted_status : OutboxRecord → String → String → ℕ → StatusRecord
deleted_status r resolved_name remote_version now =
    let base : StatusRecord = operation_status r resolved_name remote_missing (format_time now) in
    record base { remote_version = remote_version; last_success_time = format_time now }

module _ ⦃env : Env⦄ where
  pub mark_operation_failed : OutboxRecord → OperationFailure → ℕ → M (Unit {0})
  mark_operation_failed r failure now = do
    put_outbox (failed_record r (class_or_internal failure.class) now)
    put_status (failure_status r failure now)

  pub mark_claimed_operation_failed : OutboxRecord → OperationFailure → ℕ → M (Unit {0})
  mark_claimed_operation_failed r failure now = do
    _ ← commit_if_outbox_claim_held r (mark_operation_failed r failure now)
    pure tt

  pub mark_upsert_success_status :
      OutboxRecord → String → CanonicalPayload → String → ℕ → M (Unit {0})
  mark_upsert_success_status r resolved_name payload remote_version now = do
    existing ← get_status r.path r.association_id r.object_id
    put_status (success_status r resolved_name payload remote_version now existing)

  pub commit_claimed_upsert_success :
      OutboxRecord → String → CanonicalPayload → String → ℕ → M (Unit {0})
  commit_claimed_upsert_success r resolved_name payload remote_version now = do
    _ ← commit_if_outbox_claim_held r do
      mark_upsert_success_status (finished_record r now) resolved_name payload remote_version now
      delete_outbox (finished_record r now)
    pure tt

  pub commit_claimed_delete_success : OutboxRecord → String → String → ℕ → M (Unit {0})
  commit_claimed_delete_success r resolved_name remote_version now = do
    _ ← commit_if_outbox_claim_held r do
      put_status (deleted_status (finished_record r now) resolved_name remote_version now)
      delete_outbox (finished_record r now)
    pure tt
