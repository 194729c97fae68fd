-- ===== src/Deletion/Finality.antt =====
-- The version mutations of path_versions.go and the versions that are destroyed.
use openbao_plugin_secrets_s.Prelude.{
  ℕ, ◌≡◌, refl, Bool, true, false, ◌||◌, List, [], ◌∷◌, String, ◌==◌, nat_eq, subst, sym, ◌∙◌,
}
use openbao_plugin_secrets_s.Records.{Stamp, OutboxRecord, VersionRecord, MetadataRecord, is_blank}
use openbao_plugin_secrets_s.Storage.{Key, version_key, Contents, refused, Env, ◌>>◌, pure}
use openbao_plugin_secrets_s.Storage.Keeps.{
  Keeps, Keeps-throw, Keeps-bind, Keeps-if, Keeps-pure, Keeps-option,
}
use openbao_plugin_secrets_s.Storage.Triples.{Ignores, update_other, ne_of_class, Keeps-Triple}
use openbao_plugin_secrets_s.Outbox.Records.Frame.{is_outbox_key}
use openbao_plugin_secrets_s.Outbox.Listing.Frame.{
  Keeps-cancel_queued_outbox_ids, Keeps-queued_upsert_ids_for_path_version,
  Keeps-ensure_queued_outbox_ids_unclaimed,
}
use openbao_plugin_secrets_s.Payload.{Codec}
use openbao_plugin_secrets_s.Associations.Frame.{Keeps-enabled_associations_for_path}
use openbao_plugin_secrets_s.Source.Intents.{is_enqueue_intent_key}
use openbao_plugin_secrets_s.Source.Frame.{
  Keeps-get_version, Keeps-get_metadata, is_metadata_key, Keeps-put_metadata_only,
}
use openbao_plugin_secrets_s.Source.{put_metadata}
use openbao_plugin_secrets_s.Enqueue.Frame.{
  Keeps-ensure_queue_capacity_after_replacement, Keeps-additional_queued_operation_count,
  Keeps-queued_delete_ids_for_upsert_operations, Keeps-put_outbox_records,
  Keeps-put_pending_enqueue_intent, Keeps-complete_enqueue_intent,
}
use openbao_plugin_secrets_s.Deletion.{
  VersionMutationKind, mutation_delete, mutation_undelete, mutation_destroy, mutate, mutate_alone,
  commit_mutation, plan_with_version, build_source_delete_plan, mutate_current_version_delete,
  commit_current_version_undelete, undelete_deleted, mutate_current_version_undelete,
  mutate_current, mutate_source_version, run_version_mutation,
}
use openbao_plugin_secrets_s.Deletion.Destroyed.{Destroyed, IsDestroyed, mutate-Destroyed}

abbrev is_version_key : Key → Bool
is_version_key (version_key _ _) = true
is_version_key _ = false

-- Writes to other keys than those of versions.
Ignores-Destroyed :
    (T : Key → Bool) (p : String) (n : ℕ)
    → ((q : String) (k : ℕ) → T (version_key q k) ≡ false)
    → Ignores T (Destroyed p n)
Ignores-Destroyed T p n f c k v e (h, d) = (
  λ q m w s. h q m w (sym (update_other c k (version_key q m) v (ne_of_class T k _ e (f q m))) ∙ s),
  subst IsDestroyed (sym (update_other c k (version_key p n) v (ne_of_class T k _ e (f p n)))) d,
)

module _ ⦃env : Env⦄ (p : String) (n : ℕ) where
  Keeps-mutate :
      (kind : VersionMutationKind) (m : MetadataRecord) (path : String) (version : ℕ) (now : Stamp)
      → Keeps (Destroyed p n) (mutate kind m path version now)
  Keeps-mutate kind m path version now =
      Keeps-Triple _ (mutate-Destroyed p n kind m path version now) (λ _ c h. h)

  Keeps-put : (path : String) (m : MetadataRecord) → Keeps (Destroyed p n) (put_metadata path m)
  Keeps-put path m =
      Keeps-put_metadata_only (Ignores-Destroyed is_metadata_key p n (λ q k. refl)) path m

  Keeps-mutate_alone :
      (kind : VersionMutationKind) (m : MetadataRecord) (path : String) (version : ℕ) (now : Stamp)
      → Keeps (Destroyed p n) (mutate_alone kind m path version now)
  unfolding mutate_alone
  Keeps-mutate_alone kind m path version now =
      Keeps-bind _ _ (Keeps-mutate kind m path version now) λ changed. Keeps-put path changed

  Keeps-commit_mutation :
      (kind : VersionMutationKind) (m : MetadataRecord) (path : String) (version : ℕ) (now : Stamp)
      (rs : List OutboxRecord) (ids : List String)
      → Keeps (Destroyed p n) (commit_mutation kind m path version now rs ids)
  unfolding commit_mutation
  Keeps-commit_mutation kind m path version now rs ids =
      let intents = Ignores-Destroyed is_enqueue_intent_key p n (λ q k. refl) in
      let outbox = Ignores-Destroyed is_outbox_key p n (λ q k. refl) in
      Keeps-bind _ _ (Keeps-put_pending_enqueue_intent intents path _ version rs ids now) λ _.
        Keeps-bind _ _ (Keeps-mutate kind m path version now) λ changed.
          Keeps-bind _ _ (Keeps-put path changed) λ _.
            Keeps-bind _ _ (Keeps-cancel_queued_outbox_ids outbox ids) λ _.
              Keeps-bind _ _ (Keeps-put_outbox_records outbox rs)
                λ _. Keeps-complete_enqueue_intent intents path version rs

module _ ⦃env : Env⦄ ⦃codec : Codec⦄ {I : Contents → Type 0} where
  Keeps-plan_with_version :
      (path generation : String) (version : ℕ) (now : Stamp) (v : VersionRecord)
      → Keeps I (plan_with_version path generation version now v)
  unfolding plan_with_version
  Keeps-plan_with_version path generation version now v =
      Keeps-bind _ _ (Keeps-enabled_associations_for_path path) λ associations.
        Keeps-option _ _ _ (Keeps-throw (refused "object ids")) λ operations.
          Keeps-bind _ _ (Keeps-queued_upsert_ids_for_path_version path version) λ stale.
            Keeps-bind _ _ (Keeps-additional_queued_operation_count operations)
              λ additional. Keeps-pure _

  Keeps-build_source_delete_plan :
      (path generation : String) (version : ℕ) (now : Stamp)
      → Keeps I (build_source_delete_plan path generation version now)
  unfolding build_source_delete_plan
  Keeps-build_source_delete_plan path generation version now =
      Keeps-bind _ _ (Keeps-get_version path version) λ r.
        Keeps-option r _ _ (Keeps-throw _)
          λ v. Keeps-plan_with_version path generation version now v

module _ ⦃env : Env⦄ ⦃codec : Codec⦄ (p : String) (n : ℕ) where
  Keeps-mutate_current_version_delete :
      (kind : VersionMutationKind) (m : MetadataRecord) (path : String) (version : ℕ) (now : Stamp)
      → Keeps (Destroyed p n) (mutate_current_version_delete kind m path version now)
  unfolding mutate_current_version_delete
  Keeps-mutate_current_version_delete kind m path version now =
      Keeps-bind _ _ (Keeps-build_source_delete_plan path m.generation version now) λ plan.
        Keeps-bind _ _ (Keeps-ensure_queue_capacity_after_replacement _ _) λ _.
          Keeps-bind _ _ (Keeps-ensure_queued_outbox_ids_unclaimed plan.stale_upsert_ids) λ _.
            Keeps-bind _ _ (Keeps-commit_mutation p n kind m path version now _ _) λ _. Keeps-pure _

  Keeps-commit_current_version_undelete :
      (m : MetadataRecord) (path : String) (version : ℕ) (now : Stamp) (rs : List OutboxRecord)
      → Keeps (Destroyed p n) (commit_current_version_undelete m path version now rs)
  unfolding commit_current_version_undelete
  Keeps-commit_current_version_undelete m path version now rs =
      Keeps-bind _ _ (Keeps-queued_delete_ids_for_upsert_operations rs) λ stale.
        Keeps-bind _ _ (Keeps-additional_queued_operation_count rs) λ additional.
          Keeps-bind _ _ (Keeps-ensure_queue_capacity_after_replacement _ _) λ _.
            Keeps-bind _ _ (Keeps-ensure_queued_outbox_ids_unclaimed stale) λ _.
              Keeps-bind _ _
                (Keeps-commit_mutation p n mutation_undelete m path version now rs stale)
                λ _. Keeps-pure _

  Keeps-undelete_alone :
      (m : MetadataRecord) (path : String) (version : ℕ) (now : Stamp)
      → Keeps (Destroyed p n) (do mutate_alone mutation_undelete m path version now; pure false)
  Keeps-undelete_alone m path version now =
      Keeps-bind _ _ (Keeps-mutate_alone p n mutation_undelete m path version now)
        λ _. Keeps-pure false

  Keeps-undelete_deleted :
      (m : MetadataRecord) (path : String) (version : ℕ) (now : Stamp) (v : VersionRecord)
      → Keeps (Destroyed p n) (undelete_deleted m path version now v)
  unfolding undelete_deleted
  Keeps-undelete_deleted m path version now v =
      Keeps-if (v.destroyed || is_blank v.deletion_time) _ _
        (λ _. Keeps-undelete_alone m path version now)
        λ _. Keeps-bind _ _ (Keeps-enabled_associations_for_path path) λ associations.
          Keeps-option _ _ _ (Keeps-throw _)
            λ rs. Keeps-commit_current_version_undelete m path version now rs

  Keeps-mutate_current :
      (kind : VersionMutationKind) (m : MetadataRecord) (path : String) (version : ℕ) (now : Stamp)
      → Keeps (Destroyed p n) (mutate_current kind m path version now)
  unfolding mutate_current mutate_current_version_undelete
  Keeps-mutate_current mutation_undelete m path version now =
      Keeps-bind _ _ (Keeps-get_version path version) λ r.
        Keeps-option r _ _ (Keeps-undelete_alone m path version now)
          λ v. Keeps-undelete_deleted m path version now v
  Keeps-mutate_current mutation_delete m path version now =
      Keeps-mutate_current_version_delete mutation_delete m path version now
  Keeps-mutate_current mutation_destroy m path version now =
      Keeps-mutate_current_version_delete mutation_destroy m path version now

  Keeps-mutate_source_version :
      (kind : VersionMutationKind) (m : MetadataRecord) (path : String) (version : ℕ) (now : Stamp)
      → Keeps (Destroyed p n) (mutate_source_version kind m path version now)
  unfolding mutate_source_version
  Keeps-mutate_source_version kind m path version now =
      Keeps-if (version == m.current_version) _ _
        (λ _. Keeps-mutate_current kind m path version now)
        λ _. Keeps-bind _ _ (Keeps-mutate_alone p n kind m path version now) λ _. Keeps-pure false

  -- While every stored version stands at its own number, a version that is destroyed and without its
  -- payload remains so after any deletion, recovery or destruction of versions of any path, wherever
  -- the storage fails.
  pub run_version_mutation-Destroyed :
      (kind : VersionMutationKind) (path : String) (versions : List ℕ) (now : Stamp)
      → Keeps (Destroyed p n) (run_version_mutation kind path versions now)
  unfolding run_version_mutation
  run_version_mutation-Destroyed kind path [] now = Keeps-pure false
  run_version_mutation-Destroyed kind path (version ∷ versions) now =
      Keeps-bind _ _ (Keeps-get_metadata path) λ metadata.
        Keeps-bind _ _
          (Keeps-option metadata _ _ (Keeps-pure false)
            λ m. Keeps-mutate_source_version kind m path version now)
          λ signal.
            Keeps-bind _ _ (run_version_mutation-Destroyed kind path versions now)
              λ rest. Keeps-pure _
