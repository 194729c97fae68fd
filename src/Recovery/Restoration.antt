-- ===== src/Recovery/Restoration.antt =====
-- The steps of a recovery (recovery.go).
use openbao_plugin_secrets_s.Prelude.{
  ◌≡◌, refl, ap, Bool, true, not, List, [], ◌∷◌, Option, none, some, String, All, ◌==◌, nat_eq, ltb,
  to_bool,
}
use openbao_plugin_secrets_s.Records.{
  Stamp, OutboxRecord, VersionRecord, VersionMetadata-discrete, MetadataRecord, AssociationRecord,
  EnqueueIntentRecord, EnqueueIntentOperation,
}
use openbao_plugin_secrets_s.Storage.{
  association_key, outbox_key, outbox_value, association_value, Contents, Env, option,
}
use openbao_plugin_secrets_s.Storage.Keeps.{Keeps, Keeps-bind, Keeps-pure, Keeps-if}
use openbao_plugin_secrets_s.Storage.Triples.{
  Triple, Triple-bind, Triple-pure, Triple-weaken, Triple-if, Triple-Keeps, Ignores,
}
use openbao_plugin_secrets_s.Storage.Reading.{Found}
use openbao_plugin_secrets_s.Outbox.Records.{
  put_outbox, put_outbox_indexes, normalize_outbox_defaults,
}
use openbao_plugin_secrets_s.Outbox.Records.Frame.{Keeps-put_outbox_indexes}
use openbao_plugin_secrets_s.Outbox.Records.Reads.{Triple-get_outbox}
use openbao_plugin_secrets_s.Outbox.Records.Recorded.{
  Recorded, Stable, Stable-Recorded, put_outbox-Recorded,
}
use openbao_plugin_secrets_s.Associations.Reads.{Triple-get_association}
use openbao_plugin_secrets_s.Source.Frame.{
  is_source_key, Keeps-get_metadata, Keeps-put_metadata, Keeps-commit_source_metadata,
}
use openbao_plugin_secrets_s.Enqueue.Intents.{AllRecorded}
use openbao_plugin_secrets_s.Recovery.{
  restore_operation, restore_operations, recoverable_operations, recover_intent_source_metadata,
  repair_metadata, should_recover_intent_operation, outbox_record_from_intent, cons_recovered,
  recovered_version,
}
use openbao_plugin_secrets_s.Source.{put_metadata, version_metadata_at, set_version_metadata}
use openbao_plugin_secrets_s.Associations.{normalize_association_defaults}

module _ ⦃env : Env⦄ {I : Contents → Type 0} (g : Ignores is_source_key I) where
  Keeps-repair_metadata :
      (i : EnqueueIntentRecord) (v : VersionRecord) (m : MetadataRecord)
      → Keeps I (repair_metadata i v m)
  unfolding repair_metadata
  Keeps-repair_metadata i v m =
      Keeps-if (ltb m.current_version i.version) _ _
        (λ _. Keeps-commit_source_metadata g i.path m i.version v.created_time)
        λ _.
          Keeps-if (not (m.current_version == i.version)) _ _ (λ _. Keeps-pure tt)
            λ _.
              Keeps-if
                (to_bool (
                  VersionMetadata-discrete (version_metadata_at i.version m.versions)
                    (recovered_version v)))
                _
                (put_metadata i.path (record m {
                  versions = set_version_metadata i.version (recovered_version v) m.versions;
                  updated_time = i.created_time;
                }))
                (λ _. Keeps-pure tt) λ _. Keeps-put_metadata g i.path _

  pub Keeps-recover_intent_source_metadata :
      (i : EnqueueIntentRecord) (v : VersionRecord) → Keeps I (recover_intent_source_metadata i v)
  unfolding recover_intent_source_metadata
  Keeps-recover_intent_source_metadata i v =
      Keeps-bind _ _ (Keeps-get_metadata i.path) λ m. Keeps-repair_metadata i v _

module _ ⦃env : Env⦄ where
  Triple-restore_existing :
      (I : Contents → Type 0) (r : OutboxRecord) (o : Option OutboxRecord)
      → Stable I
      → Triple
          (λ c. I c × Found outbox_value normalize_outbox_defaults (outbox_key r.id) o c)
          (option o (put_outbox r) put_outbox_indexes)
          (λ _ c. I c × Recorded r.id c)
          I
  Triple-restore_existing I r none g =
      Triple-weaken _ (put_outbox-Recorded I g r) (λ c h. h.0) (λ _ c h. h) (λ c h. h)
  Triple-restore_existing I r (some old) g =
      Triple-weaken _
        (Triple-Keeps {P = λ c. I c × Recorded r.id c} _
          (Keeps-put_outbox_indexes (Stable-Recorded I r.id g).index old) (λ _ c h. h) (λ c h. h.0))
        (λ c h. (h.0, (h.1.0, h.1.2))) (λ _ c h. h) (λ c h. h)

  Triple-restore_operation :
      (I : Contents → Type 0) (r : OutboxRecord)
      → Stable I
      → Triple I (restore_operation r) (λ _ c. I c × Recorded r.id c) I
  unfolding restore_operation
  Triple-restore_operation I r g =
      Triple-bind _ _ _ (Triple-get_outbox I r.id) λ o. Triple-restore_existing I r o g

  pub Triple-restore_operations :
      (I : Contents → Type 0)
      → Stable I
      → (rs : List OutboxRecord)
      → Triple I (restore_operations rs) (λ _ c. I c × AllRecorded rs c) I
  unfolding restore_operations
  Triple-restore_operations I g [] = Triple-pure tt (λ c h. (h, tt))
  Triple-restore_operations I g (r ∷ rs) = Triple-bind _ _ _ (Triple-restore_operation I r g) λ _.
      Triple-weaken _
        (Triple-restore_operations (λ c. I c × Recorded r.id c) (Stable-Recorded I r.id g) rs)
        (λ c h. h) (λ _ c h. (h.0.0, (h.0.1, h.1))) (λ c h. h.0)

abbrev pub HasAssociation : String → EnqueueIntentOperation → Contents → Type 0
HasAssociation path o c =
    (r : AssociationRecord) × (c (association_key path o.association_id)
      ≡ some (association_value r))

abbrev pub ids_of : List OutboxRecord → List String
ids_of [] = []
ids_of (r ∷ rs) = r.id ∷ ids_of rs

abbrev pub ids_listed : List EnqueueIntentOperation → List String
ids_listed [] = []
ids_listed (o ∷ os) = o.id ∷ ids_listed os

abbrev pub Recoverable : Bool → EnqueueIntentOperation → Type 0
Recoverable available o = should_recover_intent_operation o.type available ≡ true

module _ ⦃env : Env⦄ (i : EnqueueIntentRecord) (now : Stamp) (available : Bool) where
  cons-ids :
      (o : EnqueueIntentOperation) (os : List EnqueueIntentOperation) (rs : List OutboxRecord)
      (a : Option AssociationRecord) (c : Contents)
      → HasAssociation i.path o c
      → Found association_value normalize_association_defaults
          (association_key i.path o.association_id)
          a
          c
      → ids_of rs ≡ ids_listed os
      → ids_of (cons_recovered i o now a rs) ≡ ids_listed (o ∷ os)
  unfolding outbox_record_from_intent
  cons-ids o os rs none c (x, p) f e = cc (p, f)
  cons-ids o os rs (some a) c h f e = ap (λ ids. o.id ∷ ids) e

  -- Every operation that is listed is restored, as its association is there.
  pub Triple-recoverable_operations :
      (I : Contents → Type 0) (os : List EnqueueIntentOperation)
      → ((c : Contents) → I c → All (λ o. HasAssociation i.path o c) os)
      → All (Recoverable available) os
      → Triple I
          (recoverable_operations i now available os)
          (λ rs c. I c × (ids_of rs ≡ ids_listed os))
          I
  unfolding recoverable_operations
  Triple-recoverable_operations I [] f h = Triple-pure [] (λ c j. (j, refl))
  Triple-recoverable_operations I (o ∷ os) f h =
      Triple-if (not (should_recover_intent_operation o.type available)) _ _ (λ e. cc (e, h.0))
        λ _. Triple-bind _ _ _ (Triple-get_association I i.path o.association_id) λ a.
          Triple-bind
            (λ rs c.
              (I c
                × Found association_value normalize_association_defaults
                    (association_key i.path o.association_id) a c)
              × (ids_of rs ≡ ids_listed os))
            _ _
            (Triple-weaken _
              (Triple-recoverable_operations
                (λ c.
                  I c
                  × Found association_value normalize_association_defaults
                      (association_key i.path o.association_id) a c)
                os (λ c j. (f c j.0).1) h.1)
              (λ c j. j) (λ rs c j. j) (λ c j. j.0))
            λ rs. Triple-pure _ λ c j. (j.0.0, cons-ids o os rs a c (f c j.0.0).0 j.0.1 j.1)
