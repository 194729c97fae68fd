-- ===== src/Enqueue/Frame.antt =====
-- The checks and the writes of enqueue.go and the keys that they may touch.
use openbao_plugin_secrets_s.Prelude.{ℕ, List, [], ◌∷◌, leb, String}
use openbao_plugin_secrets_s.Records.{OutboxRecord, Stamp}
use openbao_plugin_secrets_s.Storage.{queue_full, Contents, Env}
use openbao_plugin_secrets_s.Storage.Keeps.{
  Keeps, Keeps-throw, Keeps-bind, Keeps-if, Keeps-pure, Keeps-option,
}
use openbao_plugin_secrets_s.Outbox.Records.Frame.{
  Keeps-get_outbox, Keeps-put_outbox, is_outbox_key,
}
use openbao_plugin_secrets_s.Outbox.Listing.Frame.{
  Keeps-list_queued_outbox_ids, Keeps-list_queued_outbox_ids_for_path, Keeps-filter_outbox_ids,
}
use openbao_plugin_secrets_s.Config.Frame.{Keeps-read_global_config}
use openbao_plugin_secrets_s.Enqueue.{
  ensure_queue_capacity_after_replacement, additional_queued_operation_count,
  stale_queued_upsert_ids_for_operations, queued_delete_ids_for_upsert_operations,
  put_outbox_records, put_pending_enqueue_intent, complete_enqueue_intent,
}
use openbao_plugin_secrets_s.Operations.{upsert_path}
use openbao_plugin_secrets_s.Storage.Triples.{Ignores}
use openbao_plugin_secrets_s.Source.Intents.{
  is_enqueue_intent_key, Keeps-put_enqueue_intent, Keeps-delete_enqueue_intent,
}

module _ ⦃env : Env⦄ {I : Contents → Type 0} where
  pub Keeps-ensure_queue_capacity_after_replacement :
      (additional replaced : ℕ)
      → Keeps I (ensure_queue_capacity_after_replacement additional replaced)
  unfolding ensure_queue_capacity_after_replacement
  Keeps-ensure_queue_capacity_after_replacement additional replaced =
      Keeps-if (leb additional replaced) _ _ (λ _. Keeps-pure tt)
        λ _. Keeps-bind _ _ Keeps-read_global_config λ cfg.
          Keeps-bind _ _ Keeps-list_queued_outbox_ids λ ids.
            Keeps-if _ _ _ (λ _. Keeps-throw (queue_full cfg.queue_capacity)) λ _. Keeps-pure tt

  pub Keeps-additional_queued_operation_count :
      (rs : List OutboxRecord) → Keeps I (additional_queued_operation_count rs)
  unfolding additional_queued_operation_count
  Keeps-additional_queued_operation_count [] = Keeps-pure 0
  Keeps-additional_queued_operation_count (r ∷ rs) =
      Keeps-bind _ _ (Keeps-get_outbox r.id)
        λ existing. Keeps-bind _ _ (Keeps-additional_queued_operation_count rs) λ rest. Keeps-pure _

  pub Keeps-stale_queued_upsert_ids_for_operations :
      (rs : List OutboxRecord) (now : ℕ) → Keeps I (stale_queued_upsert_ids_for_operations rs now)
  unfolding stale_queued_upsert_ids_for_operations
  Keeps-stale_queued_upsert_ids_for_operations rs now =
      Keeps-option (upsert_path rs) _ _ (Keeps-pure []) λ path.
        Keeps-bind _ _ (Keeps-list_queued_outbox_ids_for_path path)
          λ ids. Keeps-filter_outbox_ids ids _

  pub Keeps-queued_delete_ids_for_upsert_operations :
      (rs : List OutboxRecord) → Keeps I (queued_delete_ids_for_upsert_operations rs)
  unfolding queued_delete_ids_for_upsert_operations
  Keeps-queued_delete_ids_for_upsert_operations rs =
      Keeps-option (upsert_path rs) _ _ (Keeps-pure []) λ path.
        Keeps-bind _ _ (Keeps-list_queued_outbox_ids_for_path path)
          λ ids. Keeps-filter_outbox_ids ids _

module _ ⦃env : Env⦄ {I : Contents → Type 0} (g : Ignores is_outbox_key I) where
  pub Keeps-put_outbox_records : (rs : List OutboxRecord) → Keeps I (put_outbox_records rs)
  unfolding put_outbox_records
  Keeps-put_outbox_records [] = Keeps-pure tt
  Keeps-put_outbox_records (r ∷ rs) =
      Keeps-bind _ _ (Keeps-put_outbox g r) λ _. Keeps-put_outbox_records rs

module _ ⦃env : Env⦄ {I : Contents → Type 0} (g : Ignores is_enqueue_intent_key I) where
  pub Keeps-put_pending_enqueue_intent :
      (path generation : String) (version : ℕ) (rs : List OutboxRecord) (ids : List String)
      (now : Stamp)
      → Keeps I (put_pending_enqueue_intent path generation version rs ids now)
  unfolding put_pending_enqueue_intent
  Keeps-put_pending_enqueue_intent path generation version [] ids now = Keeps-pure tt
  Keeps-put_pending_enqueue_intent path generation version (r ∷ rs) ids now =
      Keeps-put_enqueue_intent g _

  pub Keeps-complete_enqueue_intent :
      (path : String) (version : ℕ) (rs : List OutboxRecord)
      → Keeps I (complete_enqueue_intent path version rs)
  unfolding complete_enqueue_intent
  Keeps-complete_enqueue_intent path version [] = Keeps-pure tt
  Keeps-complete_enqueue_intent path version (r ∷ rs) = Keeps-delete_enqueue_intent g path version
