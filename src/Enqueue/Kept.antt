-- ===== src/Enqueue/Kept.antt =====
-- The enqueue of associations touches the outbox and the intents alone (association_enqueue.go).
use openbao_plugin_secrets_s.Prelude.{ℕ, Bool, List, [], ◌∷◌, String, ◌==◌, nat_eq}
use openbao_plugin_secrets_s.Records.{OutboxRecord, Stamp, AssociationRecord, MetadataRecord}
use openbao_plugin_secrets_s.Storage.{Contents, Env}
use openbao_plugin_secrets_s.Storage.Keeps.{
  Keeps, Keeps-throw, Keeps-bind, Keeps-if, Keeps-pure, Keeps-option,
}
use openbao_plugin_secrets_s.Storage.Triples.{Ignores}
use openbao_plugin_secrets_s.Outbox.Records.Frame.{Keeps-get_outbox, is_outbox_key}
use openbao_plugin_secrets_s.Outbox.Listing.Frame.{Keeps-has_queued_upsert_for_association_version}
use openbao_plugin_secrets_s.Payload.{Codec}
use openbao_plugin_secrets_s.Source.Frame.{Keeps-get_version}
use openbao_plugin_secrets_s.Source.Intents.{is_enqueue_intent_key}
use openbao_plugin_secrets_s.Enqueue.{
  ensure_queue_capacity_for, merge_operations, current_version_record, unavailable_version,
  commit_intent, enqueue_new, enqueue_associations_current_version, salted,
  enqueue_association_current_version_with_salt,
}
use openbao_plugin_secrets_s.Enqueue.Frame.{
  Keeps-ensure_queue_capacity_after_replacement, Keeps-additional_queued_operation_count,
  Keeps-put_outbox_records, Keeps-put_pending_enqueue_intent, Keeps-complete_enqueue_intent,
}

module _ ⦃env : Env⦄ {I : Contents → Type 0} where
  Keeps-ensure_queue_capacity_for : (n : ℕ) → Keeps I (ensure_queue_capacity_for n)
  unfolding ensure_queue_capacity_for
  Keeps-ensure_queue_capacity_for n =
      Keeps-if (n == 0) _ _ (λ _. Keeps-pure tt)
        λ _. Keeps-ensure_queue_capacity_after_replacement n 0

  Keeps-merge_operations : (rs : List OutboxRecord) → Keeps I (merge_operations rs)
  unfolding merge_operations
  Keeps-merge_operations [] = Keeps-pure []
  Keeps-merge_operations (r ∷ rs) =
      Keeps-bind _ _ (Keeps-get_outbox r.id)
        λ existing. Keeps-bind _ _ (Keeps-merge_operations rs) λ rest. Keeps-pure _

  pub Keeps-current_version_record :
      (path : String) (m : MetadataRecord) → Keeps I (current_version_record path m)
  unfolding current_version_record
  Keeps-current_version_record path m =
      Keeps-bind _ _ (Keeps-get_version path m.current_version) λ version.
        Keeps-option version _ _ (Keeps-throw _)
          λ v. Keeps-if (unavailable_version v) _ _ (λ _. Keeps-throw _) λ _. Keeps-pure v

module _ ⦃env : Env⦄ ⦃codec : Codec⦄ {I : Contents → Type 0} (g : Ignores is_outbox_key I)
    (h : Ignores is_enqueue_intent_key I) where
  Keeps-commit_intent :
      (path : String) (m : MetadataRecord) (rs : List OutboxRecord) (now : Stamp)
      → Keeps I (commit_intent path m rs now)
  unfolding commit_intent
  Keeps-commit_intent path m rs now =
      Keeps-bind _ _
        (Keeps-put_pending_enqueue_intent h path m.generation m.current_version rs [] now)
        λ _.
          Keeps-bind _ _ (Keeps-put_outbox_records g rs)
            λ _. Keeps-complete_enqueue_intent h path m.current_version rs

  pub Keeps-enqueue_associations_current_version :
      (rs : List AssociationRecord) (m : MetadataRecord) (now : Stamp)
      → Keeps I (enqueue_associations_current_version rs m now)
  unfolding enqueue_associations_current_version enqueue_new
  Keeps-enqueue_associations_current_version [] m now = Keeps-pure []
  Keeps-enqueue_associations_current_version (r ∷ rs) m now =
      Keeps-bind _ _ (Keeps-current_version_record r.path m) λ version.
        Keeps-option _ _ _ (Keeps-throw _) λ operations.
          Keeps-bind _ _ (Keeps-additional_queued_operation_count operations) λ n.
            Keeps-bind _ _ (Keeps-ensure_queue_capacity_for n) λ _.
              Keeps-bind _ _ (Keeps-merge_operations operations)
                λ merged. Keeps-bind _ _ (Keeps-commit_intent r.path m merged now) λ _. Keeps-pure _

  Keeps-salted :
      (r : AssociationRecord) (m : MetadataRecord) (rs : List OutboxRecord) (now : Stamp)
      → Keeps I (salted r m rs now)
  unfolding salted
  Keeps-salted r m rs now = Keeps-bind _ _ (Keeps-additional_queued_operation_count rs) λ n.
      Keeps-bind _ _ (Keeps-ensure_queue_capacity_for n)
        λ _. Keeps-bind _ _ (Keeps-commit_intent r.path m rs now) λ _. Keeps-pure _

  pub Keeps-enqueue_association_current_version_with_salt :
      (r : AssociationRecord) (m : MetadataRecord) (now : Stamp) (salt : String) (dedupe : Bool)
      (trigger : String)
      → Keeps I (enqueue_association_current_version_with_salt r m now salt dedupe trigger)
  unfolding enqueue_association_current_version_with_salt
  Keeps-enqueue_association_current_version_with_salt r m now salt dedupe trigger =
      Keeps-bind _ _ (Keeps-current_version_record r.path m) λ version.
        Keeps-option _ _ _ (Keeps-throw _) λ operations.
          Keeps-if dedupe _ _
            (λ _.
              Keeps-bind _ _
                (Keeps-has_queued_upsert_for_association_version r.path r.id m.current_version)
                λ queued.
                  Keeps-if queued _ _ (λ _. Keeps-pure []) λ _. Keeps-salted r m operations now)
            λ _. Keeps-salted r m operations now
