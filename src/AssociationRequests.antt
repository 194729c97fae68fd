-- ===== src/AssociationRequests.antt =====
-- internal/backend/path_associations.go: the requests that create, change, enable, disable, sync and
-- delete an association. Responses are left out but for the association and the operations in them.
pub mod Lifecycle
pub mod Rollback
use openbao_plugin_secrets_s.Prelude.{
  ℕ, suc, Bool, true, false, not, ◌&&◌, ◌||◌, List, [], ◌∷◌, ◌++◌, Option, none, some, String, ◌==◌,
  ◌!=◌, if◌then◌else◌, string_eq, nat_eq, ltb, contains,
}
use Prim.Native.String.{◌++◌ as string_append}
use openbao_plugin_secrets_s.Records.{
  Stamp, blank, format_time, AssociationRecord, DestinationRecord, MetadataRecord, VersionRecord,
  GlobalConfig, StatusRecord, SyncState, disabled_sync, blank_class, outbox_trigger_user,
  outbox_trigger_drift_repair, SecretPayload,
}
use openbao_plugin_secrets_s.Storage.{
  Error, refused, Env, M, ◌>>=◌, ◌>>◌, pure, throw, catch, option, now_utc,
}
use openbao_plugin_secrets_s.Outbox.Listing.{
  cancel_queued_outbox_for_association, delete_outbox_for_association,
}
use openbao_plugin_secrets_s.Status.{get_status, put_status}
use openbao_plugin_secrets_s.Config.{
  read_global_config, validate_association_activation, validate_source_eligibility,
}
use openbao_plugin_secrets_s.Source.{get_metadata, get_version}
use openbao_plugin_secrets_s.Naming.{
  secret_path, secret_key, normalize_source_path, association_resolved_name_for_object,
  source_path_allowed, validate_destination_delegation_constraints,
  validate_destination_policy_for_object,
}
use openbao_plugin_secrets_s.Payload.{Codec, association_object_ids}
use openbao_plugin_secrets_s.Associations.{
  get_association, put_association, delete_association, list_associations_for_path, get_destination,
  destination_config, association_with_concrete_reservation_names, reservation_names_of,
  association_reservation_key,
}
use openbao_plugin_secrets_s.Associations.Reservations.{validate_association_name_reservations}
use openbao_plugin_secrets_s.Enqueue.{
  current_version_record, enqueue_associations_current_version,
  enqueue_association_current_version_with_salt,
}
use openbao_plugin_secrets_s.RuntimeState.{new_runtime_id}
use openbao_plugin_secrets_s.Providers.{
  Provider, Plugin, DestinationConfig, AssociationConfig, Answer, accepted, rejected, Capabilities,
}
use openbao_plugin_secrets_s.Requests.{
  FieldData, get_ok, get_text, trimmed, string_from_field, bool_from_field,
}
use openbao_plugin_secrets_s.DestinationFields.{
  association_provider_config_from_field_data, association_provider_identity_field_keys_by_type,
}
use openbao_plugin_secrets_s.AssociationFields.{
  association_destination_from_field_data, has_granularity, association_granularity_default,
  association_format_default, association_data_mapping_default,
  association_data_key_template_default, association_delete_mode_default,
  association_name_template_default, association_resolved_name_default, association_enabled_default,
  resolve_association_names, validate_association_capabilities, validate_association_data_mapping,
  validate_delete_mode, new_association_id, destination_ref, validate_association_identity_update,
  association_desired_state_changed,
}

-- The answer of a request that enqueues: the association, and the identities of the operations.
pub record AssociationWritePlan : Type 0 where
  pub association : AssociationRecord
  pub operation_ids : List String
  pub existing_was_enabled : Bool

abbrev pub is_for : String → String → AssociationRecord → Bool
is_for type name r = r.destination_type == type && r.destination_name == name

module _ ⦃env : Env⦄ where
  abbrev pub require : Bool → String → M (Unit {0})
  require b message = if b then pure tt else throw (refused message)

  abbrev pub required : {A : Type 0} → Option A → String → M A
  required o message = option o (throw (refused message)) pure

  pub best_effort_runtime_id : String → M String
  best_effort_runtime_id prefix =
      catch (new_runtime_id prefix) λ _. pure (string_append prefix "-unavailable")

  -- A path that exists has a current version.
  pub metadata_for_association_activation : AssociationRecord → M MetadataRecord
  metadata_for_association_activation r = do
    metadata ← get_metadata r.path
    m ← required metadata "source path does not exist"
    if m.current_version == 0 then throw (refused "source path does not exist") else pure m

  pub current_source_version : String → M (MetadataRecord × VersionRecord)
  current_source_version path = do
    metadata ← get_metadata path
    m ← required metadata "source path does not exist"
    if m.current_version == 0
        then throw (refused "source path does not exist")
        else do version ← current_version_record path m; pure (m, version)

  module _ ⦃codec : Codec⦄ where
    all_objects_allowed : DestinationRecord → AssociationRecord → GlobalConfig → List String → Bool
    all_objects_allowed d r cfg [] = true
    all_objects_allowed d r cfg (id ∷ ids) =
        option (association_resolved_name_for_object r id) false
          (λ name. validate_destination_policy_for_object d r name cfg)
        && all_objects_allowed d r cfg ids

    pub validate_association_destination_policy :
        DestinationRecord → AssociationRecord → SecretPayload → GlobalConfig → Bool
    validate_association_destination_policy d r payload cfg =
        validate_destination_delegation_constraints d cfg
        && source_path_allowed r.path d.allowed_source_path_prefixes
        && option (association_object_ids r payload) false (all_objects_allowed d r cfg)

    pub validate_association_destination : AssociationRecord → GlobalConfig → M (Unit {0})
    validate_association_destination r cfg = do
      destination ← get_destination r.destination_type r.destination_name
      d ← required destination "destination does not exist"
      require (not d.disabled) "destination is disabled"
      (_, version) ← current_source_version r.path
      require (validate_association_destination_policy d r version.payload cfg) "destination policy"

    -- The names of the objects, reserved by no other association.
    with_reservations : AssociationRecord → VersionRecord → M AssociationRecord
    with_reservations r version = do
      named ←
          required (association_with_concrete_reservation_names r version.payload)
            "reservation names"
      validate_association_name_reservations named.destination_ref (reservation_names_of named)
          named.id
      pure named

    pub association_write_preflight :
        String
        → AssociationRecord
        → M (AssociationRecord × MetadataRecord × Option AssociationRecord)
    association_write_preflight path r = do
      (m, version) ← current_source_version path
      named ← with_reservations r version
      cfg ← read_global_config
      require (validate_association_activation named (some m) cfg) "source path is not eligible"
      validate_association_destination named cfg
      existing ← get_association path named.id
      pure (named, m, existing)

    pub rollback_association_persistence :
        AssociationRecord → Option AssociationRecord → M (Unit {0})
    rollback_association_persistence r previous =
        option previous (delete_association r) put_association

    -- An error of `m` undoes what was stored; an error of that is the one that is left.
    or_rollback : M (List String) → AssociationRecord → Option AssociationRecord → M (List String)
    or_rollback m r previous = catch m λ e. do rollback_association_persistence r previous; throw e

    enqueue_changed : AssociationRecord → MetadataRecord → Bool → M (List String)
    enqueue_changed r m desired_state_changed = do
      time ← now_utc
      if desired_state_changed
          then (do
            salt ← best_effort_runtime_id "association-config"
            enqueue_association_current_version_with_salt r m (format_time time) salt false
                outbox_trigger_user)
          else enqueue_associations_current_version (r ∷ []) m (format_time time)

    abbrev pub is_enabled_record : Option AssociationRecord → Bool
    is_enabled_record none = false
    is_enabled_record (some r) = r.enabled

    abbrev changes_desired_state : Option AssociationRecord → AssociationRecord → Bool
    changes_desired_state none r = false
    changes_desired_state (some existing) r = association_desired_state_changed existing r

    -- `record` with its creation time taken from the association that it replaces.
    abbrev since : Option AssociationRecord → AssociationRecord → AssociationRecord
    since none r = r
    since (some existing) r = record r { created_time = existing.created_time }

    -- From the storing of the association on.
    pub store_association_write :
        AssociationRecord → MetadataRecord → Option AssociationRecord → M AssociationWritePlan
    store_association_write r m existing = do
      put_association r
      ids ←
          if r.enabled && (not (is_enabled_record existing) || changes_desired_state existing r)
          then or_rollback (enqueue_changed r m (changes_desired_state existing r)) r existing
          else pure []
      pure (record {
        association = r;
        operation_ids = ids;
        existing_was_enabled = is_enabled_record existing;
      })

    pub association_write_plan : String → AssociationRecord → M AssociationWritePlan
    association_write_plan path r = do
      (named, m, existing) ← association_write_preflight path r
      store_association_write (since existing named) m existing
