-- ===== src/Deletion.antt =====
-- internal/backend/path_versions.go and the delete of path_data.go: the soft deletion, recovery and
-- destruction of versions, with the operations that they enqueue.
pub mod Durability
pub mod Finality
pub mod Destroyed
use openbao_plugin_secrets_s.Prelude.{
  ℕ, Bool, true, false, ◌||◌, List, [], ◌∷◌, Option, none, some, String, ◌==◌, if◌then◌else◌,
  string_eq, nat_eq, length,
}
use openbao_plugin_secrets_s.Records.{
  Stamp, blank, is_blank, upsert, delete, OutboxRecord, VersionRecord, VersionMetadata,
  MetadataRecord, outbox_trigger_user,
}
use openbao_plugin_secrets_s.Storage.{refused, Env, M, ◌>>=◌, ◌>>◌, pure, throw, option}
use openbao_plugin_secrets_s.Outbox.Listing.{
  cancel_queued_outbox_ids, ensure_queued_outbox_ids_unclaimed, queued_upsert_ids_for_path_version,
}
use openbao_plugin_secrets_s.Payload.{Codec}
use openbao_plugin_secrets_s.Associations.{enabled_associations_for_path}
use openbao_plugin_secrets_s.Source.{
  get_metadata, put_metadata, get_version, put_version, version_metadata_at, set_version_metadata,
}
use openbao_plugin_secrets_s.Enqueue.{
  additional_queued_operation_count, ensure_queue_capacity_after_replacement,
  queued_delete_ids_for_upsert_operations, put_pending_enqueue_intent, put_outbox_records,
  complete_enqueue_intent, unavailable_version,
}
use openbao_plugin_secrets_s.Operations.{new_association_outbox_records}

pub data VersionMutationKind : Type 0 where
  mutation_delete mutation_undelete mutation_destroy : VersionMutationKind

pub record SourceDeletePlan : Type 0 where
  pub operations : List OutboxRecord
  pub stale_upsert_ids : List String
  pub additional_operations : ℕ

abbrev has_some {ℓ} : {A : Type ℓ} → List A → Bool
has_some [] = false
has_some (_ ∷ _) = true

abbrev pub deleted_at : Stamp → VersionRecord → VersionRecord
deleted_at now v = record v { deletion_time = now }

abbrev pub undeleted : VersionRecord → VersionRecord
undeleted v = record v { deletion_time = blank }

abbrev pub destroyed_version : VersionRecord → VersionRecord
destroyed_version v = record v { payload = []; destroyed = true; deletion_time = blank }

-- The metadata after a change of its entry for a version.
abbrev pub change_version_metadata :
    ℕ → (VersionMetadata → VersionMetadata) → Stamp → MetadataRecord → MetadataRecord
change_version_metadata n change now m = record m {
  versions = set_version_metadata n (change (version_metadata_at n m.versions)) m.versions;
  updated_time = now;
}

module _ ⦃env : Env⦄ where
  delete_available : MetadataRecord → String → Stamp → VersionRecord → M MetadataRecord
  delete_available m path now v = if unavailable_version v then pure m else do
    put_version path (deleted_at now v)
    pure (change_version_metadata v.version (λ e. record e { deletion_time = now }) now m)

  pub soft_delete_version : MetadataRecord → String → ℕ → Stamp → M MetadataRecord
  soft_delete_version m path version now = do
    r ← get_version path version
    option r (pure m) (delete_available m path now)

  undelete_kept : MetadataRecord → String → ℕ → Stamp → VersionRecord → M MetadataRecord
  undelete_kept m path version now v = if v.destroyed then pure m else do
    put_version path (undeleted v)
    pure (change_version_metadata version (λ e. record e { deletion_time = blank }) now m)

  pub undelete_version : MetadataRecord → String → ℕ → Stamp → M MetadataRecord
  undelete_version m path version now = do
    r ← get_version path version
    option r (pure m) (undelete_kept m path version now)

  destroy_kept : MetadataRecord → String → ℕ → Stamp → VersionRecord → M MetadataRecord
  destroy_kept m path version now v = if v.destroyed then pure m else do
    put_version path (destroyed_version v)
    pure (
        change_version_metadata version (λ e. record e { destroyed = true; deletion_time = blank })
          now m)

  pub destroy_version : MetadataRecord → String → ℕ → Stamp → M MetadataRecord
  destroy_version m path version now = do
    r ← get_version path version
    option r (pure m) (destroy_kept m path version now)

  pub mutate : VersionMutationKind → MetadataRecord → String → ℕ → Stamp → M MetadataRecord
  mutate mutation_delete = soft_delete_version
  mutate mutation_undelete = undelete_version
  mutate mutation_destroy = destroy_version

  -- The change of a version with its operations, under the intent that makes it recoverable.
  pub commit_mutation :
      VersionMutationKind
      → MetadataRecord
      → String
      → ℕ
      → Stamp
      → List OutboxRecord
      → List String
      → M (Unit {0})
  commit_mutation kind m path version now operations cancel_ids = do
    put_pending_enqueue_intent path m.generation version operations cancel_ids now
    changed ← mutate kind m path version now
    put_metadata path changed
    cancel_queued_outbox_ids cancel_ids
    put_outbox_records operations
    complete_enqueue_intent path version operations

  -- A change that enqueues nothing.
  mutate_alone : VersionMutationKind → MetadataRecord → String → ℕ → Stamp → M (Unit {0})
  mutate_alone kind m path version now = do
    changed ← mutate kind m path version now
    put_metadata path changed

  module _ ⦃codec : Codec⦄ where
    plan_with_version : String → String → ℕ → Stamp → VersionRecord → M SourceDeletePlan
    plan_with_version path generation version now v = do
      associations ← enabled_associations_for_path path
      option
          (new_association_outbox_records associations generation version v.payload now (record {
            operation_type = delete;
            trigger = outbox_trigger_user;
            salt = "";
            require_delete_mode = true;
          }))
          (throw (refused "object ids"))
          λ operations. do
            stale ← queued_upsert_ids_for_path_version path version
            additional ← additional_queued_operation_count operations
            pure (record {
              operations = operations;
              stale_upsert_ids = stale;
              additional_operations = additional;
            })

    pub build_source_delete_plan : String → String → ℕ → Stamp → M SourceDeletePlan
    build_source_delete_plan path generation version now = do
      r ← get_version path version
      option r (throw (refused "source version is unavailable"))
          (plan_with_version path generation version now)

    -- Whether operations were enqueued.
    pub mutate_current_version_delete :
        VersionMutationKind → MetadataRecord → String → ℕ → Stamp → M Bool
    mutate_current_version_delete kind m path version now = do
      plan ← build_source_delete_plan path m.generation version now
      ensure_queue_capacity_after_replacement plan.additional_operations
          (length plan.stale_upsert_ids)
      ensure_queued_outbox_ids_unclaimed plan.stale_upsert_ids
      commit_mutation kind m path version now plan.operations plan.stale_upsert_ids
      pure (has_some plan.operations)

    commit_current_version_undelete :
        MetadataRecord → String → ℕ → Stamp → List OutboxRecord → M Bool
    commit_current_version_undelete m path version now operations = do
      stale ← queued_delete_ids_for_upsert_operations operations
      additional ← additional_queued_operation_count operations
      ensure_queue_capacity_after_replacement additional (length stale)
      ensure_queued_outbox_ids_unclaimed stale
      commit_mutation mutation_undelete m path version now operations stale
      pure (has_some operations)

    undelete_deleted : MetadataRecord → String → ℕ → Stamp → VersionRecord → M Bool
    undelete_deleted m path version now v =
        if v.destroyed || is_blank v.deletion_time
        then (do mutate_alone mutation_undelete m path version now; pure false)
        else do
          associations ← enabled_associations_for_path path
          option
              (new_association_outbox_records associations m.generation version v.payload now
                (record {
                  operation_type = upsert;
                  trigger = outbox_trigger_user;
                  salt = "";
                  require_delete_mode = false;
                }))
              (throw (refused "object ids")) (commit_current_version_undelete m path version now)

    pub mutate_current_version_undelete : MetadataRecord → String → ℕ → Stamp → M Bool
    mutate_current_version_undelete m path version now = do
      r ← get_version path version
      option r (do mutate_alone mutation_undelete m path version now; pure false)
          (undelete_deleted m path version now)

    mutate_current : VersionMutationKind → MetadataRecord → String → ℕ → Stamp → M Bool
    mutate_current mutation_undelete m path version now =
        mutate_current_version_undelete m path version now
    mutate_current kind m path version now = mutate_current_version_delete kind m path version now

    pub mutate_source_version : VersionMutationKind → MetadataRecord → String → ℕ → Stamp → M Bool
    mutate_source_version kind m path version now =
        if version == m.current_version
        then mutate_current kind m path version now
        else do mutate_alone kind m path version now; pure false

    -- The loop of `runVersionMutation`: whether dispatch is signalled. Each version is a
    -- transaction of its own.
    pub run_version_mutation : VersionMutationKind → String → List ℕ → Stamp → M Bool
    run_version_mutation kind path [] now = pure false
    run_version_mutation kind path (version ∷ versions) now = do
      metadata ← get_metadata path
      signal ← option metadata (pure false) λ m. mutate_source_version kind m path version now
      rest ← run_version_mutation kind path versions now
      pure (signal || rest)

    deletable : MetadataRecord → String → Stamp → VersionRecord → M (Option ℕ)
    deletable m path now v = if unavailable_version v then pure none else do
      _ ← mutate_current_version_delete mutation_delete m path m.current_version now
      pure (some m.current_version)

    delete_current : String → Stamp → MetadataRecord → M (Option ℕ)
    delete_current path now m =
        if m.current_version == 0
        then pure none
        else do r ← get_version path m.current_version; option r (pure none) (deletable m path now)

    -- `commitDataDeleteMutation`: the version that it deleted, or `none`.
    pub data_delete : String → Stamp → M (Option ℕ)
    data_delete path now = do
      metadata ← get_metadata path
      option metadata (pure none) (delete_current path now)
