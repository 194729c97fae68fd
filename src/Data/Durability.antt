-- ===== src/Data/Durability.antt =====
-- Interrupted writes of a source secret (path_data.go, enqueue.go).
use openbao_plugin_secrets_s.Prelude.{
  ◌≡◌, refl, ◌⊎◌, inl, inr, Bool, false, List, [], ◌∷◌, none, String,
}
use openbao_plugin_secrets_s.Records.{EnqueueIntentRecord, AssociationRecord, SecretPayload}
use openbao_plugin_secrets_s.Storage.{Key, version_key, Contents, Env, ◌>>◌}
use openbao_plugin_secrets_s.Storage.Keeps.{Keeps, Keeps-bind, Keeps-pure}
use openbao_plugin_secrets_s.Storage.Triples.{
  Triple, Triple-bind, Triple-then, Triple-weaken, Ignores, Ignores-at,
}
use openbao_plugin_secrets_s.Outbox.Records.Frame.{is_outbox_key}
use openbao_plugin_secrets_s.Outbox.Listing.Frame.{Keeps-cancel_queued_outbox_ids}
use openbao_plugin_secrets_s.Payload.{Codec}
use openbao_plugin_secrets_s.Associations.Frame.{is_association_key, Keeps-put_association}
use openbao_plugin_secrets_s.Source.Frame.{
  is_source_key, Keeps-put_version, Keeps-commit_source_metadata,
}
use openbao_plugin_secrets_s.Enqueue.{put_outbox_records, complete_enqueue_intent}
use openbao_plugin_secrets_s.Operations.{new_enqueue_intent_record}
use openbao_plugin_secrets_s.Outbox.Listing.{cancel_queued_outbox_ids}
use openbao_plugin_secrets_s.Source.{commit_source_metadata}
use openbao_plugin_secrets_s.Enqueue.Frame.{
  Keeps-ensure_queue_capacity_after_replacement, Keeps-additional_queued_operation_count,
  Keeps-stale_queued_upsert_ids_for_operations,
}
use openbao_plugin_secrets_s.Source.Intents.{is_enqueue_intent_key}
use openbao_plugin_secrets_s.Enqueue.Intents.{
  Underway-cases, Ignores-Underway, Stable-Underway, AllRecorded, IntentStored, Underway,
  Triple-put_pending_enqueue_intent, Triple-put_outbox_records, Triple-complete_enqueue_intent,
}
use openbao_plugin_secrets_s.Data.{
  DataWritePlan, commit_data_write_plan, put_associations, put_source_version_record,
}

-- The version is not there, or an intent lists the operations of the write, or all are recorded.
abbrev pub Recoverable : String → DataWritePlan → Contents → Type 0
Recoverable path plan c =
    (c (version_key path plan.next_version) ≡ none)
    ⊎ (((cancel_ids : List String) × IntentStored
            (new_enqueue_intent_record path plan.metadata.generation plan.next_version
              plan.operations cancel_ids plan.now)
            c)
        ⊎ AllRecorded plan.operations c)

module _ ⦃env : Env⦄ ⦃codec : Codec⦄ where
  pub Keeps-put_associations :
      (I : Contents → Type 0)
      → Ignores is_association_key I
      → (rs : List AssociationRecord) → Keeps I (put_associations rs)
  unfolding put_associations
  Keeps-put_associations I g [] = Keeps-pure tt
  Keeps-put_associations I g (r ∷ rs) =
      Keeps-bind _ _ (Keeps-put_association g r) λ _. Keeps-put_associations I g rs

module _ ⦃env : Env⦄ ⦃codec : Codec⦄ (path : String) (payload : SecretPayload)
    (plan : DataWritePlan) where
  abbrev Absent : Contents → Type 0
  Absent c = c (version_key path plan.next_version) ≡ none

  Ignores-Absent :
      (T : Key → Bool) → T (version_key path plan.next_version) ≡ false → Ignores T Absent
  Ignores-Absent T e = Ignores-at T (version_key path plan.next_version) (λ o. o ≡ none) e

  abbrev intent : List String → EnqueueIntentRecord
  intent cancel_ids =
      new_enqueue_intent_record path plan.metadata.generation plan.next_version plan.operations
        cancel_ids plan.now

  Recoverable-Underway :
      (ids : List String) (c : Contents)
      → Underway (intent ids) plan.operations c
      → Recoverable path plan c
  Recoverable-Underway ids c u = elim (Underway-cases (intent ids) plan.operations c u) [
    | inl stored ↦ inr (inl (ids, stored))
    | inr all ↦ inr (inr all)
  ]

  -- From the intent on.
  abbrev Open : List String → Contents → Type 0
  Open ids c = Underway (intent ids) plan.operations c

  complete_write :
      (ids : List String)
      → Triple
          (Open ids)
          (do
            put_source_version_record path plan.next_version payload plan.now
            commit_source_metadata path plan.metadata plan.next_version plan.now
            cancel_queued_outbox_ids ids
            put_outbox_records plan.operations
            complete_enqueue_intent path plan.next_version plan.operations)
          (λ _. AllRecorded plan.operations)
          (Recoverable path plan)
  unfolding put_source_version_record
  complete_write ids =
      let crash = Recoverable-Underway ids in
      let source = Ignores-Underway is_source_key (intent ids) plan.operations refl in
      let outbox = Ignores-Underway is_outbox_key (intent ids) plan.operations refl in
      Triple-then _ _ (Keeps-put_version source path _) crash λ _.
        Triple-then _ _ (Keeps-commit_source_metadata source path _ _ _) crash λ _.
          Triple-then _ _ (Keeps-cancel_queued_outbox_ids outbox ids) crash λ _.
            Triple-bind (λ _. AllRecorded plan.operations) _ _
              (Triple-weaken _
                (Triple-put_outbox_records (Open ids) (Stable-Underway (intent ids) plan.operations)
                  plan.operations)
                (λ c h. h) (λ _ c h. h.1) crash)
              λ _.
                Triple-weaken _
                  (Triple-complete_enqueue_intent path plan.next_version plan.operations) (λ c h. h)
                  (λ _ c h. h) (λ c h. inr (inr h))

  -- A write of a new version that returns has recorded all its operations. Wherever it stops, the
  -- version is not stored, or the intent that lists its operations is, or all of them are recorded.
  pub commit_data_write_plan-Recoverable :
      Triple
        (λ c. c (version_key path plan.next_version) ≡ none)
        (commit_data_write_plan path payload plan)
        (λ _. AllRecorded plan.operations)
        (Recoverable path plan)
  unfolding commit_data_write_plan
  commit_data_write_plan-Recoverable =
      let untouched : (c : Contents) → Absent c → Recoverable path plan c = λ c h. inl h in
      Triple-then _ _ (Keeps-stale_queued_upsert_ids_for_operations _ _) untouched λ stale.
        Triple-then _ _ (Keeps-additional_queued_operation_count _) untouched λ additional.
          Triple-then _ _ (Keeps-ensure_queue_capacity_after_replacement _ _) untouched λ _.
            Triple-then _ _
              (Keeps-put_associations Absent (Ignores-Absent is_association_key refl) _) untouched
              λ _.
                Triple-bind (λ _. Open stale) _ _
                  (Triple-weaken _
                    (Triple-put_pending_enqueue_intent Absent path plan.metadata.generation
                      plan.next_version plan.operations stale plan.now
                      (Ignores-Absent is_enqueue_intent_key refl))
                    (λ c h. h) (λ _ c h. h) untouched)
                  λ _. complete_write stale
