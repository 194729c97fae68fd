-- ===== src/Destinations.antt =====
-- internal/backend/storage_destination.go and path_destinations.go: the writes of destinations, whose
-- sensitive configuration is stored apart under a version of its own, and their endpoints.
pub mod Atomicity
use openbao_plugin_secrets_s.Prelude.{
  Bool, true, false, not, ◌&&◌, ◌||◌, List, [], ◌∷◌, ◌++◌, Option, none, some, String, ◌==◌, ◌!=◌,
  if◌then◌else◌, string_eq,
}
use Prim.Native.String.{◌++◌ as string_append}
use openbao_plugin_secrets_s.Records.{
  Stamp, blank, is_blank, format_time, DestinationRecord, DestinationSensitiveRecord, GlobalConfig,
  ErrorClass, blank_class,
}
use openbao_plugin_secrets_s.Storage.{
  destination_key, destination_value, sensitive_value, destination_sensitive_key,
  destination_sensitive_version_key, sensitive_versions_of, refused, Env, M, ◌>>=◌, ◌>>◌, pure,
  throw, catch, ignore_error, option, put_entry, delete_entry, now_utc,
}
use openbao_plugin_secrets_s.Config.{read_global_config}
use openbao_plugin_secrets_s.Text.{chars, char_eq, has_suffix}
use openbao_plugin_secrets_s.Naming.{
  validate_destination_delegation_constraints, destination_has_delegation_constraints,
}
use openbao_plugin_secrets_s.RuntimeState.{new_runtime_id}
use openbao_plugin_secrets_s.Associations.{
  get_destination, get_destination_sensitive_config_for_record, destination_config,
  sensitive_key_of, override_entries, list_association_ids_for_destination,
}
use openbao_plugin_secrets_s.Providers.{
  Provider, Plugin, DestinationConfig, ProviderError, provider_error_class, Answer, accepted,
  rejected, HealthResult, Capabilities,
}
use openbao_plugin_secrets_s.Requests.{
  FieldData, get_ok, get_text, get_bool, as_text, as_bool, or_else,
}
use openbao_plugin_secrets_s.DestinationFields.{
  destination_config_from_field_data, destination_sensitive_config_from_field_data,
  remove_sensitive_config_keys, destination_source_path_prefixes_from_field_data,
  destination_resolved_name_prefixes_from_field_data, validate_destination_write_fields,
}

-- `destinationConfigFromParts`.
abbrev pub destination_config_from_parts :
    DestinationRecord → List (String × String) → DestinationConfig
destination_config_from_parts r sensitive = record {
  name = r.name;
  config = override_entries sensitive r.config;
}

abbrev is_empty_list : {A : Type 0} → List A → Bool
is_empty_list [] = true
is_empty_list (_ ∷ _) = false

module _ ⦃env : Env⦄ where
  pub put_destination : DestinationRecord → M (Unit {0})
  put_destination r = put_entry (destination_key r.type r.name) (destination_value r)

  pub delete_destination : String → String → M (Unit {0})
  delete_destination type name = delete_entry (destination_key type name)

  pub put_destination_sensitive_config : String → DestinationSensitiveRecord → M (Unit {0})
  put_destination_sensitive_config version r =
      put_entry (sensitive_key_of r.type r.name version) (sensitive_value r)

  delete_sensitive_versions : String → String → List String → M (Unit {0})
  delete_sensitive_versions type name [] = pure tt
  delete_sensitive_versions type name (version ∷ versions) = do
    if has_suffix (chars version) (chars "/")
        then pure tt
        else delete_entry (destination_sensitive_version_key type name version)
    delete_sensitive_versions type name versions

  pub delete_destination_sensitive_config : String → String → M (Unit {0})
  delete_destination_sensitive_config type name = do
    delete_entry (destination_sensitive_key type name)
    versions ← env.list (sensitive_versions_of type name)
    delete_sensitive_versions type name versions

  pub delete_destination_sensitive_config_version : String → String → String → M (Unit {0})
  delete_destination_sensitive_config_version type name version =
      if version == "none" then pure tt else delete_entry (sensitive_key_of type name version)

  store_with_version : DestinationRecord → String → (String → M (Unit {0})) → M (Unit {0})
  store_with_version r version undo = do
    catch (put_destination (record r { sensitive_config_version = version }))
        λ e. do ignore_error (undo version); throw e
    delete_destination_sensitive_config_version r.type r.name r.sensitive_config_version

  pub store_destination_write :
      DestinationRecord → List (String × String) → Stamp → Stamp → M (Unit {0})
  store_destination_write r [] sensitive_created now = store_with_version r "none" λ _. pure tt
  store_destination_write r (e ∷ es) sensitive_created now = do
    version ← new_runtime_id "destination-sensitive"
    put_destination_sensitive_config version (record {
      type = r.type;
      name = r.name;
      config = e ∷ es;
      created_time = if is_blank sensitive_created then now else sensitive_created;
      updated_time = now;
    })
    store_with_version r version λ v. delete_destination_sensitive_config_version r.type r.name v

  -- The record, its sensitive configuration, and when that was created first.
  destination_write_record_from_field_data :
      String → String → FieldData → Stamp → M (DestinationRecord × List (String × String) × Stamp)
  destination_write_record_from_field_data type name d now = do
    existing ← get_destination type name
    existing_sensitive ← option existing (pure none) get_destination_sensitive_config_for_record
    option (destination_config_from_field_data type existing d) (throw (refused "config")) λ config.
        option (destination_sensitive_config_from_field_data type existing_sensitive d)
          (throw (refused "sensitive config"))
          λ sensitive.
            option (destination_source_path_prefixes_from_field_data existing d)
              (throw (refused "allowed_source_path_prefixes"))
              λ source_prefixes.
                option (destination_resolved_name_prefixes_from_field_data existing d)
                  (throw (refused "allowed_resolved_name_prefixes"))
                  λ name_prefixes. pure (
                    record {
                      type = type;
                      name = name;
                      description =
                          or_else (option existing "" (λ r. r.description))
                            (as_text (get_ok d "description"));
                      disabled =
                          or_else (option existing false (λ r. r.disabled))
                            (as_bool (get_ok d "disabled"));
                      config = remove_sensitive_config_keys type config;
                      sensitive_config_version =
                          option existing "" (λ r. r.sensitive_config_version);
                      allowed_source_path_prefixes = source_prefixes;
                      allowed_resolved_name_prefixes = name_prefixes;
                      created_time = option existing now (λ r. r.created_time);
                      updated_time = now;
                    },
                    sensitive,
                    option existing_sensitive blank (λ s. s.created_time),
                  )

  validate_destination_write :
      Provider → DestinationRecord → List (String × String) → GlobalConfig → M (Unit {0})
  validate_destination_write p r sensitive cfg =
      if not (validate_destination_delegation_constraints r cfg)
      then throw (refused "security_posture=hardened requires constraints")
      else do
        invalid ← p.validate_config (destination_config_from_parts r sensitive)
        option invalid (pure tt) λ _. throw (refused "destination validation failed")

  module _ (plugin : Plugin) where
    pub path_destination_write : String → String → FieldData → M (Unit {0})
    path_destination_write type name d =
        option (plugin.registry type) (throw (refused "unsupported destination type")) λ p.
          if not (validate_destination_write_fields d)
          then throw (refused "unsupported destination field")
          else do
            time ← now_utc
            (r, sensitive, created) ←
                destination_write_record_from_field_data type name d (format_time time)
            cfg ← read_global_config
            validate_destination_write p r sensitive cfg
            store_destination_write r sensitive created (format_time time)

    pub path_destination_delete : String → String → M (Unit {0})
    path_destination_delete type name =
        option (plugin.registry type) (throw (refused "unsupported destination type")) λ _. do
          ids ← list_association_ids_for_destination type name
          if not (is_empty_list ids)
              then throw (refused "destination has associations and cannot be deleted")
              else do delete_destination type name; delete_destination_sensitive_config type name
