-- ===== src/AssociationWrites.antt =====
-- internal/backend/path_associations.go: an association from the fields of a request, and the choice of the
-- association that a request updates.
pub mod Identity
use openbao_plugin_secrets_s.Prelude.{
  ℕ, suc, Bool, true, false, not, ◌&&◌, ◌||◌, List, [], ◌∷◌, Option, none, some, String, ◌==◌, ◌!=◌,
  if◌then◌else◌, string_eq, nat_eq, ltb,
}
use openbao_plugin_secrets_s.Records.{Stamp, format_time, AssociationRecord, DestinationRecord}
use openbao_plugin_secrets_s.Storage.{refused, Env, M, ◌>>=◌, ◌>>◌, pure, throw, option, now_utc}
use openbao_plugin_secrets_s.Naming.{normalize_source_path}
use openbao_plugin_secrets_s.Payload.{Codec}
use openbao_plugin_secrets_s.Associations.{
  list_associations_for_path, get_destination, destination_config, association_reservation_key,
}
use openbao_plugin_secrets_s.Providers.{
  Provider, Plugin, DestinationConfig, AssociationConfig, Answer, accepted, rejected, Capabilities,
}
use openbao_plugin_secrets_s.Requests.{
  FieldData, get_ok, get_text, string_from_field, bool_from_field,
}
use openbao_plugin_secrets_s.DestinationFields.{
  association_provider_config_from_field_data, association_provider_identity_field_keys_by_type,
}
use openbao_plugin_secrets_s.AssociationFields.{
  association_destination_from_field_data, has_granularity, association_granularity_default,
  association_format_default, association_data_mapping_default,
  association_data_key_template_default, association_delete_mode_default,
  association_name_template_default, association_resolved_name_default, association_enabled_default,
  resolve_association_names, validate_association_capabilities, validate_association_data_mapping,
  validate_delete_mode, new_association_id, destination_ref, validate_association_identity_update,
}
use openbao_plugin_secrets_s.AssociationRequests.{
  AssociationWritePlan, require, required, is_for, association_write_plan,
}

pub record AssociationWriteSelection : Type 0 where
  pub selected : Option AssociationRecord
  pub match_count : ℕ

-- The settings of a request that its base gives defaults to.
pub record AssociationSettings : Type 0 where
  pub granularity : String
  pub format : String
  pub data_mapping : String
  pub data_key_template : String
  pub delete_mode : String
  pub name_template : String
  pub resolved_name : String

pub association_settings : FieldData → Option AssociationRecord → AssociationSettings
association_settings d base =
    let granularity = string_from_field d "granularity" (association_granularity_default base) in
    let matches = has_granularity base granularity in
    let data_mapping =
      string_from_field d "data_mapping" (association_data_mapping_default base matches) in
    record {
      granularity = granularity;
      format = string_from_field d "format" (association_format_default base matches);
      data_mapping = data_mapping;
      data_key_template =
          string_from_field d "data_key_template"
            (association_data_key_template_default base data_mapping matches);
      delete_mode = string_from_field d "delete_mode" (association_delete_mode_default base);
      name_template =
          string_from_field d "name_template"
            (association_name_template_default base granularity matches);
      resolved_name =
          string_from_field d "resolved_name" (association_resolved_name_default base matches);
    }

-- The checks against what the provider can do.
pub settings_supported : Capabilities → AssociationSettings → Bool
settings_supported capabilities s =
    validate_association_capabilities capabilities s.granularity s.format
    && validate_association_data_mapping capabilities s.granularity s.format s.data_mapping
        s.data_key_template
    && validate_delete_mode capabilities s.delete_mode

abbrev any_present : List String → FieldData → Bool
any_present [] d = false
any_present (key ∷ keys) d = option (get_ok d key) false (λ _. true) || any_present keys d

module _ ⦃codec : Codec⦄ where
  unfoldable pub association_record :
      String
      → String
      → String
      → FieldData
      → Option AssociationRecord
      → AssociationSettings
      → AssociationConfig
      → String × String
      → Stamp
      → AssociationRecord
  association_record path type name d base s config (resolved_name, reserved) now = record {
    id =
        new_association_id path type name (association_reservation_key config.identity reserved)
          s.granularity;
    path = path;
    destination_type = type;
    destination_name = name;
    destination_ref = destination_ref type name;
    name_template = s.name_template;
    resolved_name = resolved_name;
    reservation_names = [];
    granularity = s.granularity;
    format = s.format;
    data_mapping = s.data_mapping;
    data_key_template = s.data_key_template;
    provider_config = config.config;
    provider_identity = config.identity;
    delete_mode = s.delete_mode;
    enabled = bool_from_field d "enabled" (association_enabled_default base);
    created_time = now;
    updated_time = now;
  }

module _ ⦃env : Env⦄ (plugin : Plugin) where
  association_provider : String → String → M (Provider × DestinationRecord × DestinationConfig)
  association_provider type name = do
    p ← required (plugin.registry type) "unsupported destination type"
    destination ← get_destination type name
    r ← required destination "destination does not exist"
    require (not r.disabled) "destination is disabled"
    config ← destination_config r
    pure (p, r, record { name = r.name; config = config })

  abbrev accept : {A : Type 0} → Answer A → M A
  accept (accepted a) = pure a
  accept (rejected e) = throw (refused e.message)

  -- The provider's form of the association fields of a request.
  normalized_config :
      Provider
      → DestinationConfig
      → String
      → List (String × String)
      → FieldData
      → M AssociationConfig
  normalized_config p destination type existing d = do
    config ←
        required (association_provider_config_from_field_data type existing d) "provider config"
    answer ← p.normalize_association_config destination (record { config = config; identity = "" })
    accept answer

  -- `none` where the request has no field of the provider's identity.
  association_provider_identity_selector : String → String → FieldData → M (Option String)
  association_provider_identity_selector type name d =
      if not (any_present (association_provider_identity_field_keys_by_type type) d)
      then pure none
      else do
        (p, _, destination) ← association_provider type name
        config ← normalized_config p destination type [] d
        pure (some config.identity)

  abbrev selects : String → String → Option String → AssociationRecord → Bool
  selects type name identity r =
      is_for type name r && option identity true (λ i. r.provider_identity == i)

  abbrev first_of : Option AssociationRecord → AssociationRecord → Option AssociationRecord
  first_of none r = some r
  first_of (some s) r = some s

  select :
      String
      → String
      → Option String
      → List AssociationRecord
      → AssociationWriteSelection
      → AssociationWriteSelection
  select type name identity [] s = s
  select type name identity (r ∷ rs) s = select type name identity rs (
      if selects type name identity r
      then record { selected = first_of s.selected r; match_count = suc s.match_count }
      else s)

  association_selection_for_write : String → FieldData → M AssociationWriteSelection
  association_selection_for_write path d = do
    (type, name) ← required (association_destination_from_field_data d false) "destination"
    if type == "" || name == "" then pure (record { selected = none; match_count = 0 }) else do
      identity ← association_provider_identity_selector type name d
      records ← list_associations_for_path path
      pure (select type name identity records (record { selected = none; match_count = 0 }))

  -- `update` tells an update of the path from a creation.
  pub association_update_base : Bool → String → FieldData → M (Option AssociationRecord)
  association_update_base update path d = if not update then pure none else do
    selection ← association_selection_for_write path d
    require (not (ltb 1 selection.match_count)) "association update is ambiguous"
    pure selection.selected

  module _ ⦃codec : Codec⦄ where
    pub association_record_from_field_data :
        String → FieldData → Option AssociationRecord → M AssociationRecord
    association_record_from_field_data path d base = do
      (type, name) ← required (association_destination_from_field_data d true) "destination"
      (p, stored, destination) ← association_provider type name
      config ← normalized_config p destination type (option base [] (λ r. r.provider_config)) d
      require (stored.type == type && stored.name == name) "destination identity changed"
      let s = association_settings d base
      names ←
          required
            (resolve_association_names path type name s.granularity s.name_template s.resolved_name)
            "names"
      require (settings_supported p.capabilities s) "unsupported by the provider"
      time ← now_utc
      pure (association_record path type name d base s config names (format_time time))

    pub path_association_write : Bool → FieldData → M AssociationWritePlan
    path_association_write update d = do
      path ← required (normalize_source_path (get_text d "path")) "path"
      base ← association_update_base update path d
      r ← association_record_from_field_data path d base
      require (validate_association_identity_update base r) "association identity"
      association_write_plan path r
