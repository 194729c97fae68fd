-- ===== src/DestinationFields.antt =====
-- internal/backend/path_destinations.go and path_associations.go: the configuration of a provider from the
-- fields of a request, by the type of the destination.
use openbao_plugin_secrets_s.Prelude.{
  Bool, true, false, not, ◌&&◌, ◌||◌, List, [], ◌∷◌, ◌++◌, Option, none, some, String, ◌==◌,
  if◌then◌else◌, string_eq, contains, keep_if, map, pos, negsuc, suc,
}
use Prim.Native.String.{◌++◌ as string_append}
use openbao_plugin_secrets_s.Records.{DestinationRecord, DestinationSensitiveRecord}
use openbao_plugin_secrets_s.Storage.{option}
use openbao_plugin_secrets_s.Text.{chars, of_chars, char_eq, trim_left, trim_space, split, itoa}
use openbao_plugin_secrets_s.Naming.{normalize_source_path}
use openbao_plugin_secrets_s.Associations.{set_entry, unique_sorted_strings}
use openbao_plugin_secrets_s.Requests.{
  FieldValue, text_field, bool_field, int_field, list_field, map_field, other_field, FieldData,
  get_ok, trimmed,
}

abbrev pub aws_type : String
aws_type = "aws-sm"

abbrev pub gitlab_type : String
gitlab_type = "gitlab"

abbrev pub kubernetes_type : String
kubernetes_type = "k8s"

abbrev by_type : List String → List String → List String → String → List String
by_type aws gitlab kubernetes type =
    if type == aws_type
    then aws
    else if type == gitlab_type
    then gitlab
    else if type == kubernetes_type
    then kubernetes
    else []

unfoldable pub destination_config_field_keys_by_type : String → List String
destination_config_field_keys_by_type =
    by_type
      ("region" ∷ "endpoint_url" ∷ "endpoint_policy" ∷ "auth_mode" ∷ "role_arn" ∷ "session_name"
        ∷ "web_identity_token_file" ∷ "value_drift_detection" ∷ [])
      ("base_url" ∷ "project_id" ∷ "allow_insecure_http" ∷ "allow_private_network" ∷ [])
      ("namespace" ∷ "kubeconfig_path" ∷ "context" ∷ "auth_mode" ∷ "api_server"
        ∷ "allow_private_api_server" ∷ "ca_cert_pem" ∷ "tls_server_name" ∷ [])

unfoldable pub destination_sensitive_config_field_keys_by_type : String → List String
destination_sensitive_config_field_keys_by_type =
    by_type ("external_id" ∷ []) ("token" ∷ []) ("token" ∷ [])

unfoldable pub destination_config_field_keys : List String
destination_config_field_keys =
    "region" ∷ "endpoint_url" ∷ "endpoint_policy" ∷ "auth_mode" ∷ "role_arn" ∷ "session_name"
    ∷ "web_identity_token_file" ∷ "value_drift_detection" ∷ "base_url" ∷ "project_id"
    ∷ "allow_insecure_http" ∷ "allow_private_network" ∷ "namespace" ∷ "kubeconfig_path" ∷ "context"
    ∷ "api_server" ∷ "allow_private_api_server" ∷ "ca_cert_pem" ∷ "tls_server_name" ∷ []

-- The keys of every type, sorted and without repeats.
unfoldable pub all_destination_sensitive_config_field_keys : List String
all_destination_sensitive_config_field_keys = unique_sorted_strings (
    destination_sensitive_config_field_keys_by_type aws_type
    ++ (destination_sensitive_config_field_keys_by_type gitlab_type
        ++ destination_sensitive_config_field_keys_by_type kubernetes_type))

gitlab_association_keys : List String
gitlab_association_keys =
    "environment_scope" ∷ "protected" ∷ "masked" ∷ "hidden" ∷ "variable_raw" ∷ "variable_type" ∷ []

unfoldable pub association_provider_config_field_keys : List String
unfolding gitlab_association_keys
association_provider_config_field_keys = "delete_recovery_window_days" ∷ gitlab_association_keys

unfoldable pub association_provider_config_field_keys_by_type : String → List String
unfolding gitlab_association_keys
association_provider_config_field_keys_by_type =
    by_type ("delete_recovery_window_days" ∷ []) gitlab_association_keys []

unfoldable pub association_provider_identity_field_keys_by_type : String → List String
association_provider_identity_field_keys_by_type = by_type [] ("environment_scope" ∷ []) []

-- `m[key]` of a Go map of texts: the empty text where the key is missing.
unfoldable pub value_at : String → List (String × String) → String
value_at key [] = ""
value_at key ((k, v) ∷ m) = if k == key then v else value_at key m

unfoldable pub has_key : String → List (String × String) → Bool
has_key key [] = false
has_key key ((k, v) ∷ m) = k == key || has_key key m

unfoldable pub delete_key : String → List (String × String) → List (String × String)
delete_key key m = keep_if (λ e. not (e.0 == key)) m

unfoldable pub destination_config_string_value : FieldValue → Option String
destination_config_string_value (text_field s) = some (trimmed s)
destination_config_string_value (bool_field b) = some (if b then "true" else "false")
destination_config_string_value (int_field (pos n)) = some (itoa n)
destination_config_string_value (int_field (negsuc n)) = some (string_append "-" (itoa (suc n)))
destination_config_string_value (list_field _) = none
destination_config_string_value (map_field _) = none
destination_config_string_value other_field = none

-- The entries of an existing configuration that have a key of the provider and are not blank.
unfoldable pub kept_config : List String → List (String × String) → List (String × String)
unfolding value_at
kept_config [] existing = []
kept_config (key ∷ keys) existing =
    let value = trimmed (value_at key existing) in
    if value == ""
    then kept_config keys existing
    else set_entry (key, value) (kept_config keys existing)

-- What one field of the request makes of the configuration; `none` is an error.
unfoldable pub apply_field :
    List String → String → FieldValue → List (String × String) → Option (List (String × String))
unfolding destination_config_string_value delete_key
apply_field provider_keys key field config =
    option (destination_config_string_value field) none λ value.
      if not (contains provider_keys key)
      then (if value == "" then some config else none)
      else some (if value == "" then delete_key key config else set_entry (key, value) config)

unfoldable pub apply_fields :
    List String → List String → FieldData → List (String × String) → Option (List (String × String))
unfolding apply_field get_ok
apply_fields provider_keys [] d config = some config
apply_fields provider_keys (key ∷ keys) d config =
    option (option (get_ok d key) (some config) (λ f. apply_field provider_keys key f config)) none
      (apply_fields provider_keys keys d)

-- A missing configuration is an empty one.
unfoldable pub provider_config_map_from_field_data :
    List (String × String) → List String → List String → FieldData → Option (List (String × String))
unfolding kept_config apply_fields
provider_config_map_from_field_data existing provider_keys field_keys d =
    apply_fields provider_keys field_keys d (kept_config provider_keys existing)

unfoldable pub destination_config_from_field_data :
    String → Option DestinationRecord → FieldData → Option (List (String × String))
destination_config_from_field_data type existing d =
    provider_config_map_from_field_data (option existing [] (λ r. r.config))
      (destination_config_field_keys_by_type type) destination_config_field_keys d

unfoldable pub destination_sensitive_config_from_field_data :
    String → Option DestinationSensitiveRecord → FieldData → Option (List (String × String))
destination_sensitive_config_from_field_data type existing d =
    provider_config_map_from_field_data (option existing [] (λ r. r.config))
      (destination_sensitive_config_field_keys_by_type type)
      all_destination_sensitive_config_field_keys d

unfoldable pub association_provider_config_from_field_data :
    String → List (String × String) → FieldData → Option (List (String × String))
association_provider_config_from_field_data type existing d =
    provider_config_map_from_field_data existing
      (association_provider_config_field_keys_by_type type) association_provider_config_field_keys d

abbrev delete_keys : List String → List (String × String) → List (String × String)
delete_keys [] m = m
delete_keys (key ∷ keys) m = delete_keys keys (delete_key key m)

unfoldable pub remove_sensitive_config_keys :
    String → List (String × String) → List (String × String)
unfolding delete_key
remove_sensitive_config_keys type config =
    delete_keys (destination_sensitive_config_field_keys_by_type type) config

unfoldable pub normalize_all_paths : List String → Option (List String)
normalize_all_paths [] = some []
normalize_all_paths (prefix ∷ prefixes) =
    if trimmed prefix == ""
    then normalize_all_paths prefixes
    else option (normalize_source_path (trimmed prefix)) none
        λ path. option (normalize_all_paths prefixes) none λ paths. some (path ∷ paths)

unfoldable pub normalize_source_path_prefixes : List String → Option (List String)
unfolding normalize_all_paths
normalize_source_path_prefixes prefixes =
    option (normalize_all_paths prefixes) none λ paths. some (unique_sorted_strings paths)

abbrev name_prefix : String → String
name_prefix prefix = of_chars (trim_left "/" (trim_space (chars prefix)))

unfoldable pub normalize_resolved_name_prefixes : List String → List String
normalize_resolved_name_prefixes prefixes =
    unique_sorted_strings (keep_if (λ p. not (p == "")) (map name_prefix prefixes))

-- `none` where the field is not of the request; the inner one is its error.
unfoldable pub string_slice_from_field_data : FieldData → String → Option (Option (List String))
unfolding get_ok
string_slice_from_field_data d key = option (get_ok d key) none λ field. some (elim field [
  | list_field values ↦ some values
  | text_field s ↦ some (map of_chars (split "," (chars s)))
  | _ ↦ none
])

unfoldable pub destination_source_path_prefixes_from_field_data :
    Option DestinationRecord → FieldData → Option (List String)
destination_source_path_prefixes_from_field_data existing d =
    option (string_slice_from_field_data d "allowed_source_path_prefixes")
      (some (option existing [] (λ r. r.allowed_source_path_prefixes)))
      λ values. option values none normalize_source_path_prefixes

unfoldable pub destination_resolved_name_prefixes_from_field_data :
    Option DestinationRecord → FieldData → Option (List String)
destination_resolved_name_prefixes_from_field_data existing d =
    option (string_slice_from_field_data d "allowed_resolved_name_prefixes")
      (some (option existing [] (λ r. r.allowed_resolved_name_prefixes)))
      λ values. option values none λ prefixes. some (normalize_resolved_name_prefixes prefixes)

-- The fields that the endpoint of a destination declares.
unfoldable pub destination_request_fields : List String
destination_request_fields =
    "type" ∷ "name" ∷ "description" ∷ "disabled" ∷ "allowed_source_path_prefixes"
    ∷ "allowed_resolved_name_prefixes" ∷ "external_id" ∷ "token" ∷ destination_config_field_keys

unfoldable pub validate_destination_write_fields : FieldData → Bool
validate_destination_write_fields [] = true
validate_destination_write_fields ((key, _) ∷ d) =
    contains destination_request_fields key && validate_destination_write_fields d
