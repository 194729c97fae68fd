-- ===== src/Data.antt =====
-- internal/backend/path_data.go: writes, reads and deletes of a source secret. A request comes
-- with its path normalized, its payload taken from the fields, and its check-and-set option read;
-- the mutations run under the path's lock, and under the queue's lock or in a transaction.
pub mod Stored
pub mod Durability
pub mod Cas
use openbao_plugin_secrets_s.Prelude.{
  ℕ, suc, ◌+◌, ◌-◌, Bool, true, false, not, ◌&&◌, ◌||◌, List, [], ◌∷◌, ◌++◌, Option, none, some,
  String, ◌==◌, ◌!=◌, if◌then◌else◌, string_eq, nat_eq, ltb, leb, length,
}
use openbao_plugin_secrets_s.Records.{
  Stamp, blank, format_time, is_blank, upsert, delete, OutboxRecord, VersionRecord, MetadataRecord,
  AssociationRecord, GlobalConfig, SecretPayload, SyncState, pending_sync, no_association,
  validation_error, outbox_trigger_user,
}
use openbao_plugin_secrets_s.Storage.{
  Error, refused, queue_full, queued_operation_claimed, Env, M, ◌>>=◌, ◌>>◌, pure, throw, option,
  now_utc,
}
use openbao_plugin_secrets_s.Outbox.Listing.{
  cancel_queued_outbox_ids, ensure_queued_outbox_ids_unclaimed, queued_upsert_ids_for_path_version,
}
use openbao_plugin_secrets_s.Config.{read_global_config, validate_source_eligibility}
use openbao_plugin_secrets_s.Payload.{Codec}
use openbao_plugin_secrets_s.Associations.{put_association, enabled_associations_for_path}
use openbao_plugin_secrets_s.Associations.Reservations.{association_reservation_updates_for_payload}
use openbao_plugin_secrets_s.Source.{
  get_metadata, put_metadata, get_version, put_version, new_metadata_record, commit_source_metadata,
}
use openbao_plugin_secrets_s.Enqueue.{
  stale_queued_upsert_ids_for_operations, additional_queued_operation_count,
  ensure_queue_capacity_after_replacement, put_pending_enqueue_intent, put_outbox_records,
  complete_enqueue_intent,
}
use openbao_plugin_secrets_s.Operations.{
  AssociationOutboxOptions, new_association_outbox_records, operation_ids,
}

-- `none` is the absence of the option; a negative option is refused before.
unfoldable pub check_cas : MetadataRecord → Option ℕ → Bool
check_cas m none = not m.cas_required
check_cas m (some cas) =
    if cas == 0 && m.current_version != 0
    then false
    else if ltb 0 cas && m.current_version != cas
    then false
    else true

pub record DataWritePlan : Type 0 where
  pub metadata : MetadataRecord
  pub next_version : ℕ
  pub now_time : ℕ
  pub now : Stamp
  pub association_reservation_updates : List AssociationRecord
  pub operations : List OutboxRecord
  pub is_eligible : Bool

pub sync_state_for_operation_ids : List String → SyncState
sync_state_for_operation_ids [] = no_association
sync_state_for_operation_ids (_ ∷ _) = pending_sync

module _ ⦃env : Env⦄ where
  pub put_source_version_record : String → ℕ → SecretPayload → Stamp → M (Unit {0})
  put_source_version_record path next_version payload now = put_version path (record {
    version = next_version;
    created_time = now;
    payload = payload;
    deletion_time = blank;
    destroyed = false;
  })

  module _ ⦃codec : Codec⦄ where
    pub put_associations : List AssociationRecord → M (Unit {0})
    put_associations [] = pure tt
    put_associations (r ∷ rs) = do put_association r; put_associations rs

    abbrev user_upsert : AssociationOutboxOptions
    user_upsert = record {
      operation_type = upsert;
      trigger = outbox_trigger_user;
      salt = "";
      require_delete_mode = false;
    }

    plan_operations :
        MetadataRecord
        → SecretPayload
        → List AssociationRecord
        → List AssociationRecord
        → ℕ
        → Bool
        → M DataWritePlan
    plan_operations m payload associations updates now_time is_eligible =
        let now = format_time now_time in
        option
          (new_association_outbox_records associations m.generation (m.current_version + 1) payload
            now user_upsert)
          (throw (refused "object ids"))
          λ operations. pure (record {
            metadata = m;
            next_version = m.current_version + 1;
            now_time = now_time;
            now = now;
            association_reservation_updates = updates;
            operations = operations;
            is_eligible = is_eligible;
          })

    plan_eligible : MetadataRecord → SecretPayload → List AssociationRecord → Bool → M DataWritePlan
    plan_eligible m payload associations is_eligible = do
      now_time ← now_utc
      updates ← association_reservation_updates_for_payload associations payload
      plan_operations m payload associations updates now_time is_eligible

    abbrev has_none {ℓ} : {A : Type ℓ} → List A → Bool
    has_none [] = true
    has_none (_ ∷ _) = false

    -- `generation` is the random identity of a new metadata record. A refusal by response and an
    -- error are both `err`.
    pub data_write_plan_from_request : String → SecretPayload → Option ℕ → String → M DataWritePlan
    data_write_plan_from_request path payload cas generation = do
      stored ← get_metadata path
      let m = option stored (new_metadata_record generation) (λ m. m)
      if not (check_cas m cas) then throw (refused "check-and-set failed") else do
        associations ← enabled_associations_for_path path
        cfg ← read_global_config
        if validate_source_eligibility (some m) cfg
            then plan_eligible m payload associations true
            else plan_eligible m payload [] (has_none associations)

    pub commit_data_write_plan : String → SecretPayload → DataWritePlan → M (Unit {0})
    commit_data_write_plan path payload plan = do
      stale ← stale_queued_upsert_ids_for_operations plan.operations plan.now_time
      additional ← additional_queued_operation_count plan.operations
      ensure_queue_capacity_after_replacement additional (length stale)
      put_associations plan.association_reservation_updates
      put_pending_enqueue_intent path plan.metadata.generation plan.next_version plan.operations
          stale plan.now
      put_source_version_record path plan.next_version payload plan.now
      commit_source_metadata path plan.metadata plan.next_version plan.now
      cancel_queued_outbox_ids stale
      put_outbox_records plan.operations
      complete_enqueue_intent path plan.next_version plan.operations

    pub data_write : String → SecretPayload → Option ℕ → String → M DataWritePlan
    data_write path payload cas generation = do
      plan ← data_write_plan_from_request path payload cas generation
      commit_data_write_plan path payload plan
      pure plan

  abbrev live_version : Option VersionRecord → Option VersionRecord
  live_version none = none
  live_version (some v) = if v.destroyed || not (is_blank v.deletion_time) then none else some v

  read_version : String → ℕ → MetadataRecord → M (Option VersionRecord)
  read_version path version m = if m.current_version == 0 then pure none else do
    r ← get_version path (if version == 0 then m.current_version else version)
    pure (live_version r)

  -- `version` is 0 for the latest; `none` is the empty response.
  pub data_read : String → ℕ → M (Option VersionRecord)
  data_read path version = do
    metadata ← get_metadata path
    option metadata (pure none) (read_version path version)
