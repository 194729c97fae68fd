-- ===== src/AssociationRequests/Lifecycle.antt =====
-- internal/backend/path_associations.go: the requests that enable, disable, sync and delete an association;
-- markAssociationStatusDisabled of association_enqueue.go.
use openbao_plugin_secrets_s.Prelude.{
  ℕ, true, false, List, [], ◌∷◌, Option, none, some, String, ◌==◌, if◌then◌else◌, string_eq, nat_eq,
}
use openbao_plugin_secrets_s.Records.{
  Stamp, blank, format_time, AssociationRecord, MetadataRecord, StatusRecord, disabled_sync,
  blank_class, outbox_trigger_user,
}
use openbao_plugin_secrets_s.Storage.{refused, Env, M, ◌>>=◌, ◌>>◌, pure, throw, option, now_utc}
use openbao_plugin_secrets_s.Outbox.Listing.{
  cancel_queued_outbox_for_association, delete_outbox_for_association,
}
use openbao_plugin_secrets_s.Status.{get_status, put_status}
use openbao_plugin_secrets_s.Config.{
  read_global_config, validate_association_activation, validate_source_eligibility,
}
use openbao_plugin_secrets_s.Source.{get_metadata, get_version}
use openbao_plugin_secrets_s.Naming.{
  secret_path, normalize_source_path, association_resolved_name_for_object,
}
use openbao_plugin_secrets_s.Payload.{Codec, association_object_ids}
use openbao_plugin_secrets_s.Associations.{
  get_association, put_association, delete_association, list_associations_for_path,
}
use openbao_plugin_secrets_s.Enqueue.{
  current_version_record, enqueue_associations_current_version,
  enqueue_association_current_version_with_salt,
}
use openbao_plugin_secrets_s.Requests.{FieldData, get_text, trimmed}
use openbao_plugin_secrets_s.AssociationFields.{association_destination_from_field_data}
-- The answer of a request that enqueues: the association, and the identities of the operations.
use openbao_plugin_secrets_s.AssociationRequests.{
  AssociationWritePlan, is_for, require, required, best_effort_runtime_id,
  metadata_for_association_activation, validate_association_destination, with_reservations,
  or_rollback,
}

disabled_status : AssociationRecord → String → String → ℕ → Stamp → StatusRecord
disabled_status r object_id resolved_name version now = record {
  path = r.path;
  version = version;
  association_id = r.id;
  object_id = object_id;
  destination_ref = r.destination_ref;
  resolved_name = resolved_name;
  state = disabled_sync;
  payload_sha256 = "";
  remote_version = "";
  verification = "";
  last_operation_id = "";
  last_success_time = blank;
  last_reconcile_time = blank;
  last_drift_detected_time = blank;
  last_repair_time = blank;
  repair_count = 0;
  last_error_class = blank_class;
  last_error = "";
  updated_time = now;
}

module _ ⦃env : Env⦄ ⦃codec : Codec⦄ where
  record_for_enable : AssociationRecord → MetadataRecord → M AssociationRecord
  record_for_enable r m = do
    cfg ← read_global_config
    require (validate_source_eligibility (some m) cfg) "source path is not eligible"
    validate_association_destination r cfg
    version ← current_version_record r.path m
    with_reservations r version

  pub path_association_enable : AssociationRecord → M AssociationWritePlan
  path_association_enable r = do
    m ← metadata_for_association_activation r
    previous ← record_for_enable r m
    time ← now_utc
    let enabled = record previous { enabled = true; updated_time = format_time time }
    put_association enabled
    ids ←
        if previous.enabled
        then pure []
        else or_rollback (enqueue_associations_current_version (enabled ∷ []) m (format_time time))
            enabled (some previous)
    pure (record {
      association = enabled;
      operation_ids = ids;
      existing_was_enabled = previous.enabled;
    })

  pub path_association_sync : AssociationRecord → M (List String)
  path_association_sync r = do
    require r.enabled "association is disabled"
    m ← metadata_for_association_activation r
    cfg ← read_global_config
    require (validate_association_activation r (some m) cfg) "source path is not eligible"
    validate_association_destination r cfg
    time ← now_utc
    salt ← best_effort_runtime_id "manual"
    enqueue_association_current_version_with_salt r m (format_time time) salt false
        outbox_trigger_user

  put_disabled_statuses : AssociationRecord → ℕ → Stamp → List String → M (Unit {0})
  put_disabled_statuses r version now [] = pure tt
  put_disabled_statuses r version now (id ∷ ids) = do
    name ← required (association_resolved_name_for_object r id) "object name"
    put_status (disabled_status r id name version now)
    put_disabled_statuses r version now ids

  abbrev version_of_metadata : Option MetadataRecord → ℕ → ℕ
  version_of_metadata none n = n
  version_of_metadata (some m) n = m.current_version

  pub mark_association_status_disabled : AssociationRecord → Stamp → M (Unit {0})
  mark_association_status_disabled r now = do
    metadata ← get_metadata r.path
    if r.granularity == secret_path
        then (do
          status ← get_status r.path r.id secret_path
          let s = option status (disabled_status r secret_path r.resolved_name 0 now) (λ old. old)
          put_status (record s {
            version = version_of_metadata metadata s.version;
            state = disabled_sync;
            updated_time = now;
          }))
        else option metadata (pure tt) λ m. if m.current_version == 0 then pure tt else do
          version ← get_version r.path m.current_version
          option version (pure tt) λ v. do
            ids ← required (association_object_ids r v.payload) "object ids"
            put_disabled_statuses r m.current_version now ids

  -- The operations that were canceled.
  pub path_association_disable : AssociationRecord → M (List String)
  path_association_disable r = do
    time ← now_utc
    ids ← cancel_queued_outbox_for_association r
    put_association (record r { enabled = false; updated_time = format_time time })
    mark_association_status_disabled (record r { enabled = false; updated_time = format_time time })
        (format_time time)
    pure ids

  pub path_association_delete : String → String → M (Unit {0})
  path_association_delete input id = do
    path ← required (normalize_source_path input) "path"
    found ← get_association path id
    option found (pure tt) λ _. do
      again ← get_association path id
      option again (pure tt) λ r. do delete_outbox_for_association r; delete_association r

  -- The search of `associationForDestination`, with the match so far; a second one is an error.
  only_match :
      String
      → String
      → List AssociationRecord
      → Option AssociationRecord
      → M (Option AssociationRecord)
  only_match type name [] found = pure found
  only_match type name (r ∷ rs) found =
      if is_for type name r
      then option found (only_match type name rs (some r)) (λ _. throw (refused "ambiguous"))
      else only_match type name rs found

  pub association_for_destination : String → String → String → M AssociationRecord
  association_for_destination path type name = do
    records ← list_associations_for_path path
    found ← only_match type name records none
    required found "association does not exist"

  -- `none` where the request names an identity that is not there.
  pub association_from_lifecycle_request : FieldData → M (Option AssociationRecord)
  association_from_lifecycle_request d = do
    path ← required (normalize_source_path (get_text d "path")) "path"
    if trimmed (get_text d "association_id") == ""
        then (do
          (type, name) ← required (association_destination_from_field_data d true) "destination"
          r ← association_for_destination path type name
          pure (some r))
        else get_association path (trimmed (get_text d "association_id"))
