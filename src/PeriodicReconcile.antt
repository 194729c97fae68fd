-- ===== src/PeriodicReconcile.antt =====
-- internal/backend/periodic_reconcile.go: the sweep over the objects whose reconciliation is due, and the
-- repair of drift.
pub mod Detection
pub mod Frame
use openbao_plugin_secrets_s.Prelude.{
  ℕ, zero, suc, ◌+◌, ◌*◌, Bool, true, false, not, ◌&&◌, ◌||◌, List, [], ◌∷◌, ◌++◌, Option, none,
  some, String, ◌==◌, ◌!=◌, if◌then◌else◌, string_eq, nat_eq, ltb, leb, pos_part,
}
use openbao_plugin_secrets_s.Records.{
  Stamp, blank, stamp, malformed, is_blank, format_time, parse_time, AssociationRecord,
  MetadataRecord, VersionRecord, StatusRecord, GlobalConfig, SyncState, drifted, second,
  outbox_trigger_drift_repair,
}
use openbao_plugin_secrets_s.Storage.{
  Error, queue_full, storage_failed, decode_failed, queued_operation_claimed, refused, Env, M,
  ◌>>=◌, ◌>>◌, pure, throw, catch, option,
}
use openbao_plugin_secrets_s.Outbox.Listing.{
  has_queued_upsert_for_association_object, sort_by, string_lt,
}
use openbao_plugin_secrets_s.Status.{get_status}
use openbao_plugin_secrets_s.Source.{get_metadata, get_version}
use openbao_plugin_secrets_s.Payload.{Codec, association_object_ids}
use openbao_plugin_secrets_s.Associations.{get_association}
use openbao_plugin_secrets_s.Enqueue.{
  unavailable_version, enqueue_association_current_version_with_salt,
}
use openbao_plugin_secrets_s.AssociationRequests.{best_effort_runtime_id}
use openbao_plugin_secrets_s.Naming.{is_all_space}
use openbao_plugin_secrets_s.Providers.{Plugin, RemoteState}
use openbao_plugin_secrets_s.Reconcile.{
  ReconcileObjectResult, failure_result, load_reconcile_lookup_context, put_reconcile_status,
  is_drifted,
}
use openbao_plugin_secrets_s.Reconcile.Objects.{reconcile_association_object}

pub record DriftReconcileCandidate : Type 0 where
  pub association : AssociationRecord
  pub metadata : MetadataRecord
  pub version : VersionRecord
  pub object_id : String
  pub last_reconcile_time : Stamp

unfoldable pub drift_detection_allows_queued_upsert : GlobalConfig → Bool
drift_detection_allows_queued_upsert cfg = cfg.restore_guard || cfg.drift_repair == "detect"

-- `last.Add(interval).After(now)`; the stored interval is not negative.
abbrev past_interval : Option ℕ → ℕ → ℕ → Bool
past_interval none now interval = true
past_interval (some last) now interval = leb (last + interval) now

unfoldable pub drift_reconcile_due : Option StatusRecord → ℕ → ℕ → Bool
drift_reconcile_due none now interval = true
drift_reconcile_due (some s) now interval =
    is_blank s.last_reconcile_time || past_interval (parse_time s.last_reconcile_time) now interval

-- The order of the stored texts: the empty one first, the others by their time. A text that is no time,
-- which the program does not write, stands after those.
abbrev stamp_lt : Stamp → Stamp → Bool
stamp_lt blank blank = false
stamp_lt blank _ = true
stamp_lt (stamp a) (stamp b) = ltb a b
stamp_lt (stamp a) (malformed b) = true
stamp_lt (malformed a) (malformed b) = string_lt a b
stamp_lt _ _ = false

abbrev same_stamp : Stamp → Stamp → Bool
same_stamp a b = not (stamp_lt a b) && not (stamp_lt b a)

unfoldable pub candidate_lt : DriftReconcileCandidate → DriftReconcileCandidate → Bool
candidate_lt l r =
    if not (same_stamp l.last_reconcile_time r.last_reconcile_time)
    then stamp_lt l.last_reconcile_time r.last_reconcile_time
    else if l.association.path != r.association.path
    then string_lt l.association.path r.association.path
    else if l.association.id != r.association.id
    then string_lt l.association.id r.association.id
    else string_lt l.object_id r.object_id

abbrev is_repairable_remote : RemoteState → Bool
is_repairable_remote remote =
    remote.exists
    && remote.ownership_known
    && remote.owned
    && remote.payload_sha256 != ""
    && not (is_all_space remote.verification)

unfoldable pub is_repairable_drift : ReconcileObjectResult → Bool
is_repairable_drift x =
    is_drifted x.verdict.state && option x.remote_state false is_repairable_remote

module _ ⦃env : Env⦄ where
  cons_all : Option AssociationRecord → List AssociationRecord → List AssociationRecord
  cons_all none rs = rs
  cons_all (some r) rs = r ∷ rs

  read_all : List (String × String) → M (List AssociationRecord)
  read_all [] = pure []
  read_all ((path, id) ∷ keys) = do
    r ← get_association path id
    rest ← read_all keys
    pure (cons_all r rest)

  pub list_all_associations : M (List AssociationRecord)
  list_all_associations = do keys ← env.collect_associations; read_all keys

  -- The part of the candidate after the test for queued work.
  due_candidate :
      AssociationRecord
      → MetadataRecord
      → VersionRecord
      → String
      → ℕ
      → ℕ
      → M (List DriftReconcileCandidate)
  due_candidate r m v object_id now interval = do
    status ← get_status r.path r.id object_id
    pure (
        if drift_reconcile_due status now interval
        then record {
          association = r;
          metadata = m;
          version = v;
          object_id = object_id;
          last_reconcile_time = option status blank (λ s. s.last_reconcile_time);
        }
          ∷ []
        else [])

  pub drift_reconcile_candidate_for_object :
      AssociationRecord
      → MetadataRecord
      → VersionRecord
      → GlobalConfig
      → ℕ
      → ℕ
      → String
      → M (List DriftReconcileCandidate)
  drift_reconcile_candidate_for_object r m v cfg now interval object_id =
      if drift_detection_allows_queued_upsert cfg
      then due_candidate r m v object_id now interval
      else do
        queued ← has_queued_upsert_for_association_object r.path r.id object_id m.current_version
        if queued then pure [] else due_candidate r m v object_id now interval

  candidates_for_objects :
      AssociationRecord
      → MetadataRecord
      → VersionRecord
      → GlobalConfig
      → ℕ
      → ℕ
      → List String
      → M (List DriftReconcileCandidate)
  candidates_for_objects r m v cfg now interval [] = pure []
  candidates_for_objects r m v cfg now interval (id ∷ ids) = do
    found ← drift_reconcile_candidate_for_object r m v cfg now interval id
    rest ← candidates_for_objects r m v cfg now interval ids
    pure (found ++ rest)

  module _ ⦃codec : Codec⦄ where
    pub drift_reconcile_candidates_for_association :
        GlobalConfig → ℕ → ℕ → AssociationRecord → M (List DriftReconcileCandidate)
    drift_reconcile_candidates_for_association cfg now interval r =
        if not r.enabled then pure [] else do
          metadata ← get_metadata r.path
          option metadata (pure []) λ m. if m.current_version == 0 then pure [] else do
            version ← get_version r.path m.current_version
            option version (pure []) λ v.
                if unavailable_version v
                then pure []
                else option (association_object_ids r v.payload) (pure [])
                    (candidates_for_objects r m v cfg now interval)

    candidates_for_all :
        GlobalConfig → ℕ → ℕ → List AssociationRecord → M (List DriftReconcileCandidate)
    candidates_for_all cfg now interval [] = pure []
    candidates_for_all cfg now interval (r ∷ rs) = do
      found ← drift_reconcile_candidates_for_association cfg now interval r
      rest ← candidates_for_all cfg now interval rs
      pure (found ++ rest)

    pub drift_reconcile_candidates : GlobalConfig → ℕ → ℕ → M (List DriftReconcileCandidate)
    drift_reconcile_candidates cfg now interval = do
      rs ← list_all_associations
      candidates_for_all cfg now interval rs

    -- An error of the queue's capacity is passed over.
    unless_full : M (Unit {0}) → M (Unit {0})
    unless_full m = catch m λ e. elim e [
      | queue_full _ ↦ pure tt
      | storage_failed s ↦ throw (storage_failed s)
      | decode_failed ↦ throw decode_failed
      | queued_operation_claimed id ↦ throw (queued_operation_claimed id)
      | refused s ↦ throw (refused s)
    ]

    pub enqueue_periodic_drift_repair :
        GlobalConfig → DriftReconcileCandidate → Stamp → M (Unit {0})
    enqueue_periodic_drift_repair cfg c now =
        if cfg.restore_guard
        then pure tt
        else unless_full (do
          salt ← best_effort_runtime_id "repair"
          _ ←
              enqueue_association_current_version_with_salt c.association c.metadata now salt true
                outbox_trigger_drift_repair
          pure tt)

    module _ (plugin : Plugin) where
      reconcile_from_storage :
          DriftReconcileCandidate → GlobalConfig → M (List ReconcileObjectResult)
      reconcile_from_storage c cfg =
          load_reconcile_lookup_context plugin c.association (some cfg)
            (λ p context. do
              x ←
                  reconcile_association_object c.association p context c.metadata.current_version
                    c.version c.object_id
              pure (x ∷ []))
            (λ failure.
              failure_result failure c.association c.metadata.current_version c.object_id ∷ [])

      repair_result :
          GlobalConfig → DriftReconcileCandidate → Stamp → List ReconcileObjectResult → M (Unit {0})
      repair_result cfg c now [] = pure tt
      repair_result cfg c now (x ∷ xs) = do
        put_reconcile_status x now
        if cfg.drift_repair == "repair" && is_repairable_drift x
            then enqueue_periodic_drift_repair cfg c now
            else pure tt
        repair_result cfg c now xs

      -- `limit` is the size of a batch.
      sweep : GlobalConfig → Stamp → ℕ → List DriftReconcileCandidate → M (Unit {0})
      sweep cfg now zero cs = pure tt
      sweep cfg now (suc limit) [] = pure tt
      sweep cfg now (suc limit) (c ∷ cs) = do
        results ← reconcile_from_storage c cfg
        repair_result cfg c now results
        sweep cfg now limit cs

      -- The stored interval is at least a minute, or it would not have been accepted.
      pub periodic_drift_reconcile : GlobalConfig → ℕ → M (Unit {0})
      periodic_drift_reconcile cfg now =
          if cfg.drift_repair == "off"
          then pure tt
          else option (codec.parse_duration cfg.drift_reconcile_interval)
              (throw (refused "interval"))
              λ interval. do
                candidates ← drift_reconcile_candidates cfg now (pos_part interval)
                sweep cfg (format_time now) cfg.drift_reconcile_batch
                    (sort_by candidate_lt candidates)
