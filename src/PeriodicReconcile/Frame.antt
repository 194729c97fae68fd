-- ===== src/PeriodicReconcile/Frame.antt =====
-- The choice of the objects that are due reads the storage alone (internal/backend/periodic_reconcile.go).
use openbao_plugin_secrets_s.Prelude.{ℕ, not, List, [], ◌∷◌, String, ◌==◌, nat_eq}
use openbao_plugin_secrets_s.Records.{
  AssociationRecord, MetadataRecord, VersionRecord, GlobalConfig,
}
use openbao_plugin_secrets_s.Storage.{Contents, Env}
use openbao_plugin_secrets_s.Storage.Keeps.{
  Keeps, Keeps-bind, Keeps-if, Keeps-pure, Keeps-option, Keeps-collect_associations,
}
use openbao_plugin_secrets_s.Outbox.Listing.Frame.{Keeps-has_queued_upsert_for_association_object}
use openbao_plugin_secrets_s.Status.Frame.{Keeps-get_status}
use openbao_plugin_secrets_s.Source.Frame.{Keeps-get_metadata, Keeps-get_version}
use openbao_plugin_secrets_s.Payload.{Codec, association_object_ids}
use openbao_plugin_secrets_s.Associations.Frame.{Keeps-get_association}
use openbao_plugin_secrets_s.Enqueue.{unavailable_version}
use openbao_plugin_secrets_s.PeriodicReconcile.{
  drift_detection_allows_queued_upsert, read_all, list_all_associations, due_candidate,
  drift_reconcile_candidate_for_object, candidates_for_objects,
  drift_reconcile_candidates_for_association, candidates_for_all, drift_reconcile_candidates,
}

module _ ⦃env : Env⦄ {I : Contents → Type 0} where
  Keeps-read_all : (keys : List (String × String)) → Keeps I (read_all keys)
  unfolding read_all
  Keeps-read_all [] = Keeps-pure []
  Keeps-read_all ((path, id) ∷ keys) =
      Keeps-bind _ _ (Keeps-get_association path id)
        λ r. Keeps-bind _ _ (Keeps-read_all keys) λ rest. Keeps-pure _

  Keeps-list_all_associations : Keeps I list_all_associations
  unfolding list_all_associations
  Keeps-list_all_associations = Keeps-bind _ _ Keeps-collect_associations Keeps-read_all

  Keeps-due_candidate :
      (r : AssociationRecord) (m : MetadataRecord) (v : VersionRecord) (object_id : String)
      (now interval : ℕ)
      → Keeps I (due_candidate r m v object_id now interval)
  unfolding due_candidate
  Keeps-due_candidate r m v object_id now interval =
      Keeps-bind _ _ (Keeps-get_status r.path r.id object_id) λ status. Keeps-pure _

  module _ (cfg : GlobalConfig) (now interval : ℕ) where
    Keeps-drift_reconcile_candidate_for_object :
        (r : AssociationRecord) (m : MetadataRecord) (v : VersionRecord) (object_id : String)
        → Keeps I (drift_reconcile_candidate_for_object r m v cfg now interval object_id)
    unfolding drift_reconcile_candidate_for_object
    Keeps-drift_reconcile_candidate_for_object r m v object_id =
        Keeps-if (drift_detection_allows_queued_upsert cfg) _ _
          (λ _. Keeps-due_candidate r m v object_id now interval)
          λ _.
            Keeps-bind _ _
              (Keeps-has_queued_upsert_for_association_object r.path r.id object_id
                m.current_version)
              λ queued.
                Keeps-if queued _ _ (λ _. Keeps-pure [])
                  λ _. Keeps-due_candidate r m v object_id now interval

    Keeps-candidates_for_objects :
        (r : AssociationRecord) (m : MetadataRecord) (v : VersionRecord) (ids : List String)
        → Keeps I (candidates_for_objects r m v cfg now interval ids)
    unfolding candidates_for_objects
    Keeps-candidates_for_objects r m v [] = Keeps-pure []
    Keeps-candidates_for_objects r m v (id ∷ ids) =
        Keeps-bind _ _ (Keeps-drift_reconcile_candidate_for_object r m v id)
          λ found. Keeps-bind _ _ (Keeps-candidates_for_objects r m v ids) λ rest. Keeps-pure _

    module _ ⦃codec : Codec⦄ where
      Keeps-drift_reconcile_candidates_for_association :
          (r : AssociationRecord)
          → Keeps I (drift_reconcile_candidates_for_association cfg now interval r)
      unfolding drift_reconcile_candidates_for_association
      Keeps-drift_reconcile_candidates_for_association r =
          Keeps-if (not r.enabled) _ _ (λ _. Keeps-pure [])
            λ _. Keeps-bind _ _ (Keeps-get_metadata r.path) λ metadata.
              Keeps-option metadata _ _ (Keeps-pure []) λ m.
                Keeps-if (m.current_version == 0) _ _ (λ _. Keeps-pure [])
                  λ _. Keeps-bind _ _ (Keeps-get_version r.path m.current_version) λ version.
                    Keeps-option version _ _ (Keeps-pure []) λ v.
                      Keeps-if (unavailable_version v) _ _ (λ _. Keeps-pure [])
                        λ _.
                          Keeps-option (association_object_ids r v.payload) _ _ (Keeps-pure [])
                            (Keeps-candidates_for_objects r m v)

      Keeps-candidates_for_all :
          (rs : List AssociationRecord) → Keeps I (candidates_for_all cfg now interval rs)
      unfolding candidates_for_all
      Keeps-candidates_for_all [] = Keeps-pure []
      Keeps-candidates_for_all (r ∷ rs) =
          Keeps-bind _ _ (Keeps-drift_reconcile_candidates_for_association r)
            λ found. Keeps-bind _ _ (Keeps-candidates_for_all rs) λ rest. Keeps-pure _

      pub Keeps-drift_reconcile_candidates : Keeps I (drift_reconcile_candidates cfg now interval)
      unfolding drift_reconcile_candidates
      Keeps-drift_reconcile_candidates =
          Keeps-bind _ _ Keeps-list_all_associations Keeps-candidates_for_all
