-- ===== src/Enqueue.antt =====
-- internal/backend/enqueue.go and association_enqueue.go: operations of a source change, the
-- capacity of the queue, and the enqueue intent that makes a change recoverable.
pub mod Intents
pub mod Frame
pub mod Kept
use openbao_plugin_secrets_s.Prelude.{
  ℕ, ◌+◌, ◌-◌, ◌≤◌, Bool, true, false, not, ◌&&◌, ◌||◌, List, [], ◌∷◌, ◌++◌, Option, none, some,
  String, ◌==◌, ◌!=◌, if◌then◌else◌, string_eq, nat_eq, ltb, leb, length, map,
}
use Prim.Native.String.{◌++◌ as string_append}
use openbao_plugin_secrets_s.Records.{
  Stamp, blank, format_time, OperationType, upsert, delete, unknown_type, is_upsert, is_delete,
  is_blank, pending, OutboxRecord, EnqueueIntentOperation, EnqueueIntentRecord, AssociationRecord,
  MetadataRecord, VersionRecord, SecretPayload, outbox_trigger_user, outbox_trigger_drift_repair,
}
use openbao_plugin_secrets_s.Storage.{
  Error, queue_full, refused, Env, M, ◌>>=◌, ◌>>◌, pure, throw, option,
}
use openbao_plugin_secrets_s.Outbox.Records.{
  get_outbox, put_outbox, is_queued_outbox_state, is_outbox_claim_active,
}
use openbao_plugin_secrets_s.Outbox.Listing.{
  holds, list_queued_outbox_ids, list_queued_outbox_ids_for_path, filter_outbox_ids,
  has_queued_upsert_for_association_version,
}
use openbao_plugin_secrets_s.Text.{itoa}
use openbao_plugin_secrets_s.Config.{read_global_config}
use openbao_plugin_secrets_s.Naming.{normalized_delete_mode}
use openbao_plugin_secrets_s.Payload.{Codec, association_object_ids}
use openbao_plugin_secrets_s.Associations.{unique_sorted_strings}
use openbao_plugin_secrets_s.Source.{put_enqueue_intent, delete_enqueue_intent, get_version}
use openbao_plugin_secrets_s.Operations.{
  operation_ids, target_version, upsert_path, new_enqueue_intent_record,
  new_association_outbox_records,
}

abbrev pub unavailable_version : VersionRecord → Bool
unavailable_version v = v.destroyed || not (is_blank v.deletion_time)

module _ ⦃env : Env⦄ where
  -- Lengths are Go ints: `depth - replaced` may be negative, so the test is written with sums.
  pub ensure_queue_capacity_after_replacement : ℕ → ℕ → M (Unit {0})
  ensure_queue_capacity_after_replacement additional replaced =
      if leb additional replaced then pure tt else do
        cfg ← read_global_config
        ids ← list_queued_outbox_ids
        let full = ltb (cfg.queue_capacity + replaced) (length ids + additional)
        if full then throw (queue_full cfg.queue_capacity) else pure tt

  pub ensure_queue_capacity_for : ℕ → M (Unit {0})
  ensure_queue_capacity_for additional =
      if additional == 0 then pure tt else ensure_queue_capacity_after_replacement additional 0

  abbrev is_additional : Option OutboxRecord → ℕ
  is_additional none = 1
  is_additional (some r) = if is_queued_outbox_state r.state then 0 else 1

  pub additional_queued_operation_count : List OutboxRecord → M ℕ
  additional_queued_operation_count [] = pure 0
  additional_queued_operation_count (r ∷ rs) = do
    existing ← get_outbox r.id
    rest ← additional_queued_operation_count rs
    pure (is_additional existing + rest)

  abbrev is_stale_upsert : List OutboxRecord → ℕ → OutboxRecord → Bool
  is_stale_upsert operations now r =
      is_upsert r.type
      && not (is_outbox_claim_active r now)
      && holds (ltb r.version) (target_version r.association_id r.object_id operations)

  pub stale_queued_upsert_ids_for_operations : List OutboxRecord → ℕ → M (List String)
  stale_queued_upsert_ids_for_operations operations now =
      option (upsert_path operations) (pure []) λ path. do
        ids ← list_queued_outbox_ids_for_path path
        filter_outbox_ids ids (is_stale_upsert operations now)

  abbrev is_superseded_delete : List OutboxRecord → OutboxRecord → Bool
  is_superseded_delete operations r =
      is_delete r.type
      && holds (λ v. v == r.version) (target_version r.association_id r.object_id operations)

  pub queued_delete_ids_for_upsert_operations : List OutboxRecord → M (List String)
  queued_delete_ids_for_upsert_operations operations =
      option (upsert_path operations) (pure []) λ path. do
        ids ← list_queued_outbox_ids_for_path path
        filter_outbox_ids ids (is_superseded_delete operations)

  pub put_outbox_records : List OutboxRecord → M (Unit {0})
  put_outbox_records [] = pure tt
  put_outbox_records (r ∷ rs) = do put_outbox r; put_outbox_records rs

  pub put_pending_enqueue_intent :
      String → String → ℕ → List OutboxRecord → List String → Stamp → M (Unit {0})
  put_pending_enqueue_intent path generation version [] cancel_ids now = pure tt
  put_pending_enqueue_intent path generation version (r ∷ rs) cancel_ids now =
      put_enqueue_intent (new_enqueue_intent_record path generation version (r ∷ rs) cancel_ids now)

  pub complete_enqueue_intent : String → ℕ → List OutboxRecord → M (Unit {0})
  complete_enqueue_intent path version [] = pure tt
  complete_enqueue_intent path version (r ∷ rs) = delete_enqueue_intent path version

  -- Queued work is kept with its claim and its schedule; other work starts again.
  merge_existing : OutboxRecord → Option OutboxRecord → OutboxRecord
  merge_existing operation none = operation
  merge_existing operation (some existing) =
      if is_queued_outbox_state existing.state then existing else record operation {
        created_time = existing.created_time;
        claim_attempt = existing.claim_attempt;
      }

  merge_operations : List OutboxRecord → M (List OutboxRecord)
  merge_operations [] = pure []
  merge_operations (r ∷ rs) = do
    existing ← get_outbox r.id
    rest ← merge_operations rs
    pure (merge_existing r existing ∷ rest)

  pub current_version_record : String → MetadataRecord → M VersionRecord
  current_version_record path m = do
    version ← get_version path m.current_version
    option version (throw (refused "current source version is unavailable")) λ v.
        if unavailable_version v
        then throw (refused "current source version is unavailable")
        else pure v

  module _ ⦃codec : Codec⦄ where
    commit_intent : String → MetadataRecord → List OutboxRecord → Stamp → M (Unit {0})
    commit_intent path m operations now = do
      put_pending_enqueue_intent path m.generation m.current_version operations [] now
      put_outbox_records operations
      complete_enqueue_intent path m.current_version operations

    enqueue_new : String → MetadataRecord → List OutboxRecord → Stamp → M (List String)
    enqueue_new path m operations now = do
      additional ← additional_queued_operation_count operations
      ensure_queue_capacity_for additional
      merged ← merge_operations operations
      commit_intent path m merged now
      pure (operation_ids operations)

    pub enqueue_associations_current_version :
        List AssociationRecord → MetadataRecord → Stamp → M (List String)
    enqueue_associations_current_version [] m now = pure []
    enqueue_associations_current_version (r ∷ rs) m now = do
      version ← current_version_record r.path m
      option
          (new_association_outbox_records (r ∷ rs) m.generation m.current_version version.payload
            now
            (record {
              operation_type = upsert;
              trigger = outbox_trigger_user;
              salt = "";
              require_delete_mode = false;
            }))
          (throw (refused "object ids")) λ operations. enqueue_new r.path m operations now

    salted : AssociationRecord → MetadataRecord → List OutboxRecord → Stamp → M (List String)
    salted r m operations now = do
      additional ← additional_queued_operation_count operations
      ensure_queue_capacity_for additional
      commit_intent r.path m operations now
      pure (operation_ids operations)

    -- `salt` is the random identity that `bestEffortRuntimeID` gives.
    pub enqueue_association_current_version_with_salt :
        AssociationRecord → MetadataRecord → Stamp → String → Bool → String → M (List String)
    enqueue_association_current_version_with_salt r m now salt dedupe trigger = do
      version ← current_version_record r.path m
      option
          (new_association_outbox_records (r ∷ []) m.generation m.current_version version.payload
            now
            (record {
              operation_type = upsert;
              trigger = trigger;
              salt = salt;
              require_delete_mode = false;
            }))
          (throw (refused "object ids"))
          λ operations.
            if dedupe
            then (do
              queued ← has_queued_upsert_for_association_version r.path r.id m.current_version
              if queued then pure [] else salted r m operations now)
            else salted r m operations now
