-- ===== src/AssociationRequests/Rollback.antt =====
-- A write of an association whose enqueue fails is undone (path_associations.go).
use openbao_plugin_secrets_s.Prelude.{
  ◌≡◌, refl, sym, ap, ◌∙◌, ◌&&◌, ◌||◌, not, Bool, false, [], ◌∷◌, Option, none, some, String,
}
use openbao_plugin_secrets_s.Records.{AssociationRecord, MetadataRecord}
use openbao_plugin_secrets_s.Storage.{Key, association_key, association_value, Contents, Env}
use openbao_plugin_secrets_s.Storage.Keeps.{
  Keeps, Keeps-bind, Keeps-pure, Keeps-if, Keeps-now, Keeps-catch,
}
use openbao_plugin_secrets_s.Storage.Triples.{
  Triple, Triple-bind, Triple-pure, Triple-throw, Triple-if, Triple-weaken, Triple-catch,
  Triple-Keeps, Ignores, Ignores-at,
}
use openbao_plugin_secrets_s.Storage.Faultless.{Faultless}
use openbao_plugin_secrets_s.Outbox.Records.Frame.{is_outbox_key}
use openbao_plugin_secrets_s.Source.Intents.{is_enqueue_intent_key}
use openbao_plugin_secrets_s.Payload.{Codec}
use openbao_plugin_secrets_s.Enqueue.Kept.{
  Keeps-enqueue_associations_current_version, Keeps-enqueue_association_current_version_with_salt,
}
use openbao_plugin_secrets_s.Associations.Sure.{
  Stands, Triple-put_association, Triple-put_association_over, Triple-delete_association,
}
use openbao_plugin_secrets_s.RuntimeState.Frame.{Keeps-new_runtime_id}
use openbao_plugin_secrets_s.AssociationRequests.{
  store_association_write, or_rollback, rollback_association_persistence, enqueue_changed,
  best_effort_runtime_id, changes_desired_state, is_enabled_record,
}

-- What stands at the association is what stood before: nothing, or the previous record.
abbrev pub StandsBefore : AssociationRecord → Option AssociationRecord → Contents → Type 0
StandsBefore r none c = c (association_key r.path r.id) ≡ none
StandsBefore r (some previous) c =
    c (association_key r.path r.id) ≡ some (association_value previous)

-- The previous record is of the same path and identity.
abbrev pub SameKey : AssociationRecord → Option AssociationRecord → Type 0
SameKey r none = Unit
SameKey r (some previous) = (previous.path ≡ r.path) × (previous.id ≡ r.id)

module _ ⦃env : Env⦄ ⦃codec : Codec⦄ where
  pub Keeps-best_effort_runtime_id :
      {I : Contents → Type 0} (prefix : String) → Keeps I (best_effort_runtime_id prefix)
  unfolding best_effort_runtime_id
  Keeps-best_effort_runtime_id prefix =
      Keeps-catch _ _ (Keeps-new_runtime_id prefix) λ _. Keeps-pure _

  Keeps-enqueue_changed :
      {I : Contents → Type 0}
      → Ignores is_outbox_key I
      → Ignores is_enqueue_intent_key I
      → (r : AssociationRecord) (m : MetadataRecord) (changed : Bool)
      → Keeps I (enqueue_changed r m changed)
  unfolding enqueue_changed
  Keeps-enqueue_changed g h r m changed = Keeps-bind _ _ Keeps-now λ time.
      Keeps-if changed _ _
        (λ _.
          Keeps-bind _ _ (Keeps-best_effort_runtime_id "association-config")
            λ salt. Keeps-enqueue_association_current_version_with_salt g h r m _ salt false _)
        λ _. Keeps-enqueue_associations_current_version g h (r ∷ []) m _

  Stands-Ignores :
      (r : AssociationRecord) (T : Key → Bool)
      → T (association_key r.path r.id) ≡ false
      → Ignores T (Stands r)
  Stands-Ignores r T e =
      Ignores-at T (association_key r.path r.id) (λ o. o ≡ some (association_value r)) e

  Triple-rollback :
      Faultless env
      → (r : AssociationRecord) (existing : Option AssociationRecord) → SameKey r existing
      → {E : Contents → Type 0}
      → Triple
          (Stands r)
          (rollback_association_persistence r existing)
          (λ _. StandsBefore r existing)
          E
  unfolding rollback_association_persistence
  Triple-rollback f r none same = Triple-delete_association f (Stands r) r
  Triple-rollback f r (some previous) same {E} =
      let key : association_key r.path r.id ≡ association_key previous.path previous.id =
        cc (same.0, same.1) in
      Triple-weaken {E' = E} _ (Triple-put_association_over f {E = E} r previous)
        (λ c h. sym (ap c key) ∙ h) (λ _ c h. ap c key ∙ h) (λ c h. h)

  -- On a storage that does not fail, a write of an association that returns has stored it, and one that
  -- fails has left what stood at the association before.
  pub store_association_write-StandsBefore :
      Faultless env
      → (r : AssociationRecord) (m : MetadataRecord) (existing : Option AssociationRecord)
      → SameKey r existing
      → Triple
          (StandsBefore r existing)
          (store_association_write r m existing)
          (λ _. Stands r)
          (StandsBefore r existing)
  unfolding store_association_write or_rollback
  store_association_write-StandsBefore f r m existing same =
      Triple-bind (λ _. Stands r) _ _ (Triple-put_association f (StandsBefore r existing) r)
        λ _.
          Triple-bind (λ _. Stands r) _ _
            (Triple-if
              (r.enabled && (not (is_enabled_record existing) || changes_desired_state existing r))
              _ _
              (λ _.
                Triple-catch (Stands r) _ _
                  (Triple-Keeps _
                    (Keeps-enqueue_changed (Stands-Ignores r is_outbox_key refl)
                      (Stands-Ignores r is_enqueue_intent_key refl) r m
                      (changes_desired_state existing r))
                    (λ a c h. h) (λ c h. h))
                  λ e.
                    Triple-bind (λ _. StandsBefore r existing) _ _
                      (Triple-rollback f r existing same) λ _. Triple-throw e (λ c h. h))
              λ _. Triple-pure [] (λ c h. h))
            λ ids. Triple-pure _ (λ c h. h)
