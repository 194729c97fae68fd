-- ===== src/Deletion/Durability.antt =====
-- Interrupted changes of a version (path_versions.go, enqueue.go).
use openbao_plugin_secrets_s.Prelude.{ℕ, ◌≡◌, refl, ◌⊎◌, inl, inr, List, Option, String}
use openbao_plugin_secrets_s.Records.{Stamp, OutboxRecord, MetadataRecord, EnqueueIntentRecord}
use openbao_plugin_secrets_s.Storage.{Key, version_key, Value, Contents, Env}
use openbao_plugin_secrets_s.Storage.Keeps.{Keeps, Keeps-bind, Keeps-pure, Keeps-if, Keeps-option}
use openbao_plugin_secrets_s.Storage.Triples.{
  Triple, Triple-bind, Triple-then, Triple-weaken, Ignores, Ignores-at,
}
use openbao_plugin_secrets_s.Outbox.Records.Frame.{is_outbox_key}
use openbao_plugin_secrets_s.Outbox.Listing.Frame.{Keeps-cancel_queued_outbox_ids}
use openbao_plugin_secrets_s.Source.Frame.{
  is_source_key, Keeps-get_version, Keeps-put_version, Keeps-put_metadata,
}
use openbao_plugin_secrets_s.Source.Intents.{is_enqueue_intent_key}
use openbao_plugin_secrets_s.Enqueue.{unavailable_version}
use openbao_plugin_secrets_s.Operations.{new_enqueue_intent_record}
use openbao_plugin_secrets_s.Enqueue.Intents.{
  AllRecorded, IntentStored, Underway, Underway-cases, Ignores-Underway, Stable-Underway,
  Triple-put_pending_enqueue_intent, Triple-put_outbox_records, Triple-complete_enqueue_intent,
}
use openbao_plugin_secrets_s.Deletion.{
  VersionMutationKind, mutation_delete, mutation_undelete, mutation_destroy, mutate,
  commit_mutation, soft_delete_version, undelete_version, destroy_version, delete_available,
  undelete_kept, destroy_kept,
}

module _ ⦃env : Env⦄ {I : Contents → Type 0} (g : Ignores is_source_key I) where
  Keeps-mutate_source :
      (kind : VersionMutationKind) (m : MetadataRecord) (path : String) (version : ℕ) (now : Stamp)
      → Keeps I (mutate kind m path version now)
  unfolding mutate soft_delete_version undelete_version destroy_version delete_available
      undelete_kept destroy_kept
  Keeps-mutate_source mutation_delete m path version now =
      Keeps-bind _ _ (Keeps-get_version path version) λ r. Keeps-option r _ _ (Keeps-pure m) λ v.
        Keeps-if (unavailable_version v) _ _ (λ _. Keeps-pure m)
          λ _. Keeps-bind _ _ (Keeps-put_version g path _) λ _. Keeps-pure _
  Keeps-mutate_source mutation_undelete m path version now =
      Keeps-bind _ _ (Keeps-get_version path version) λ r. Keeps-option r _ _ (Keeps-pure m) λ v.
        Keeps-if v.destroyed _ _ (λ _. Keeps-pure m)
          λ _. Keeps-bind _ _ (Keeps-put_version g path _) λ _. Keeps-pure _
  Keeps-mutate_source mutation_destroy m path version now =
      Keeps-bind _ _ (Keeps-get_version path version) λ r. Keeps-option r _ _ (Keeps-pure m) λ v.
        Keeps-if v.destroyed _ _ (λ _. Keeps-pure m)
          λ _. Keeps-bind _ _ (Keeps-put_version g path _) λ _. Keeps-pure _

-- The version is as it was, or an intent lists the operations, or all are recorded.
abbrev pub Resumable :
    Key → Option Value → EnqueueIntentRecord → List OutboxRecord → Contents → Type 0
Resumable k before i rs c = (c k ≡ before) ⊎ (IntentStored i c ⊎ AllRecorded rs c)

module _ ⦃env : Env⦄ (kind : VersionMutationKind) (m : MetadataRecord) (path : String) (version : ℕ)
    (now : Stamp) (rs : List OutboxRecord) (ids : List String) (before : Option Value) where
  abbrev intent : EnqueueIntentRecord
  intent = new_enqueue_intent_record path m.generation version rs ids now

  -- A change of a version that returns has recorded all its operations. Wherever it stops, the version
  -- is stored as before, or the intent that lists its operations is, or all of them are recorded.
  pub commit_mutation-Resumable :
      Triple
        (λ c. c (version_key path version) ≡ before)
        (commit_mutation kind m path version now rs ids)
        (λ _. AllRecorded rs)
        (Resumable
          (version_key path version)
          before
          (new_enqueue_intent_record path m.generation version rs ids now)
          rs)
  unfolding commit_mutation
  commit_mutation-Resumable =
      let crash : (c : Contents)
          → Underway intent rs c
          → Resumable (version_key path version) before intent rs c =
        λ c u. inr (Underway-cases intent rs c u) in
      let source = Ignores-Underway is_source_key intent rs refl in
      let outbox = Ignores-Underway is_outbox_key intent rs refl in
      Triple-bind (λ _. Underway intent rs) _ _
        (Triple-weaken _
          (Triple-put_pending_enqueue_intent (λ c. c (version_key path version) ≡ before) path
            m.generation version rs ids now
            (Ignores-at is_enqueue_intent_key (version_key path version) (λ o. o ≡ before) refl))
          (λ c h. h) (λ _ c h. h) (λ c h. inl h))
        λ _. Triple-then _ _ (Keeps-mutate_source source kind m path version now) crash λ changed.
          Triple-then _ _ (Keeps-put_metadata source path changed) crash λ _.
            Triple-then _ _ (Keeps-cancel_queued_outbox_ids outbox ids) crash λ _.
              Triple-bind (λ _. AllRecorded rs) _ _
                (Triple-weaken _
                  (Triple-put_outbox_records (Underway intent rs) (Stable-Underway intent rs) rs)
                  (λ c h. h) (λ _ c h. h.1) crash)
                λ _.
                  Triple-weaken _ (Triple-complete_enqueue_intent path version rs) (λ c h. h)
                    (λ _ c h. h) (λ c h. inr (inr h))
