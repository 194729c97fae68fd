-- ===== src/Recovery.antt =====
-- internal/backend/recovery.go: incomplete enqueue intents are completed after an interruption.
pub mod Restoration
pub mod Completion
use openbao_plugin_secrets_s.Prelude.{
  ℕ, suc, Bool, false, not, ◌&&◌, ◌||◌, List, [], ◌∷◌, Option, none, some, ◌==◌, if◌then◌else◌,
  nat_eq, ltb, leb, to_bool,
}
use openbao_plugin_secrets_s.Records.{
  Stamp, blank, format_time, is_blank, OperationType, upsert, delete, unknown_type, pending,
  OutboxRecord, VersionRecord, VersionMetadata, VersionMetadata-discrete, MetadataRecord,
  EnqueueIntentRecord, EnqueueIntentOperation, AssociationRecord,
}
use openbao_plugin_secrets_s.Storage.{Env, M, ◌>>=◌, ◌>>◌, pure, option}
use openbao_plugin_secrets_s.Outbox.Records.{get_outbox, put_outbox, put_outbox_indexes}
use openbao_plugin_secrets_s.Outbox.Listing.{cancel_queued_outbox_ids}
use openbao_plugin_secrets_s.Associations.{get_association}
use openbao_plugin_secrets_s.Source.{
  get_version, get_metadata, put_metadata, new_metadata_record, list_enqueue_intents,
  delete_enqueue_intent, version_metadata_at, set_version_metadata, commit_source_metadata,
}

unfoldable pub should_recover_intent_operation : OperationType → Bool → Bool
should_recover_intent_operation upsert available = available
should_recover_intent_operation delete available = not available
should_recover_intent_operation (unknown_type _) available = false

unfoldable pub any_recoverable : List EnqueueIntentOperation → Bool → Bool
unfolding should_recover_intent_operation
any_recoverable [] available = false
any_recoverable (o ∷ os) available =
    should_recover_intent_operation o.type available || any_recoverable os available

abbrev pub intent_source_mutation_committed : EnqueueIntentRecord → Bool → Bool
intent_source_mutation_committed intent available = any_recoverable intent.operations available

abbrev pub is_available : Option VersionRecord → Bool
is_available none = false
is_available (some v) = not v.destroyed && is_blank v.deletion_time

unfoldable pub outbox_record_from_intent :
    EnqueueIntentRecord → EnqueueIntentOperation → Stamp → OutboxRecord
outbox_record_from_intent intent o now = record {
  id = o.id;
  type = o.type;
  path = intent.path;
  version = intent.version;
  association_id = o.association_id;
  object_id = o.object_id;
  destination_ref = o.destination_ref;
  state = pending;
  attempts = 0;
  not_before = o.not_before;
  created_time = intent.created_time;
  updated_time = now;
  idempotency_key = o.idempotency_key;
  trigger = o.trigger;
  claim_owner = "";
  claim_expires_time = blank;
  claim_attempt = 0;
}

module _ ⦃env : Env⦄ where
  abbrev cons_recovered :
      EnqueueIntentRecord
      → EnqueueIntentOperation
      → Stamp
      → Option AssociationRecord
      → List OutboxRecord
      → List OutboxRecord
  cons_recovered intent o now none rs = rs
  cons_recovered intent o now (some _) rs = outbox_record_from_intent intent o now ∷ rs

  pub recoverable_operations :
      EnqueueIntentRecord → Stamp → Bool → List EnqueueIntentOperation → M (List OutboxRecord)
  recoverable_operations intent now available [] = pure []
  recoverable_operations intent now available (o ∷ os) =
      let others = recoverable_operations intent now available os in
      if not (should_recover_intent_operation o.type available) then others else do
        association ← get_association intent.path o.association_id
        rest ← others
        pure (cons_recovered intent o now association rest)

  -- An operation that is in the outbox already gets its index entries again.
  restore_operation : OutboxRecord → M (Unit {0})
  restore_operation r = do
    existing ← get_outbox r.id
    option existing (put_outbox r) put_outbox_indexes

  pub restore_operations : List OutboxRecord → M (Unit {0})
  restore_operations [] = pure tt
  restore_operations (r ∷ rs) = do restore_operation r; restore_operations rs

  abbrev recovered_version : VersionRecord → VersionMetadata
  recovered_version v = record {
    created_time = v.created_time;
    deletion_time = v.deletion_time;
    destroyed = v.destroyed;
  }

  repair_metadata : EnqueueIntentRecord → VersionRecord → MetadataRecord → M (Unit {0})
  repair_metadata intent v m =
      let same = to_bool (
        VersionMetadata-discrete (version_metadata_at intent.version m.versions)
          (recovered_version v)) in
      if ltb m.current_version intent.version
      then commit_source_metadata intent.path m intent.version v.created_time
      else if not (m.current_version == intent.version)
      then pure tt
      else if same
      then pure tt
      else put_metadata intent.path (record m {
        versions = set_version_metadata intent.version (recovered_version v) m.versions;
        updated_time = intent.created_time;
      })

  pub recover_intent_source_metadata : EnqueueIntentRecord → VersionRecord → M (Unit {0})
  recover_intent_source_metadata intent v = do
    metadata ← get_metadata intent.path
    repair_metadata intent v (option metadata (new_metadata_record intent.generation) (λ m. m))

  pub recover_enqueue_intent : EnqueueIntentRecord → Stamp → M (Unit {0})
  recover_enqueue_intent intent now = do
    version ← get_version intent.path intent.version
    let available = is_available version
    let committed = intent_source_mutation_committed intent available
    option version (pure tt)
        λ v. if committed then recover_intent_source_metadata intent v else pure tt
    if committed then cancel_queued_outbox_ids intent.cancel_operation_ids else pure tt
    operations ← recoverable_operations intent now available intent.operations
    restore_operations operations
    delete_enqueue_intent intent.path intent.version

  -- `max_intents` is 0 for no limit. The fuel of the loop is its list.
  recover_intents : List EnqueueIntentRecord → ℕ → ℕ → Stamp → M (Unit {0})
  recover_intents [] recovered max_intents now = pure tt
  recover_intents (i ∷ is) recovered max_intents now =
      let others = recover_intents is (suc recovered) max_intents now in
      do
        recover_enqueue_intent i now
        if not (max_intents == 0) && leb max_intents (suc recovered) then pure tt else others

  pub recover_incomplete_enqueue_intents_limit : ℕ → ℕ → M (Unit {0})
  recover_incomplete_enqueue_intents_limit now max_intents = do
    intents ← list_enqueue_intents
    recover_intents intents 0 max_intents (format_time now)
