-- ===== src/AssociationFields.antt =====
-- internal/backend/path_associations.go: the parts of an association request that need no storage. The
-- outcome `none` or `false` is an error, without its text.
use openbao_plugin_secrets_s.Prelude.{
  Bool, true, false, not, ◌&&◌, ◌||◌, List, [], ◌∷◌, Option, none, some, String, ◌==◌, ◌!=◌,
  if◌then◌else◌, string_eq,
}
use Prim.Native.String.{◌++◌ as string_append}
use openbao_plugin_secrets_s.Records.{AssociationRecord}
use openbao_plugin_secrets_s.Storage.{option}
use openbao_plugin_secrets_s.Text.{chars, of_chars, char_eq, contains_text, trim, trim_space, split}
use openbao_plugin_secrets_s.Naming.{
  secret_path, secret_key, render_association_object_name, secret_key_reservation_name,
  render_data_key_template, validate_data_map_key,
}
use openbao_plugin_secrets_s.Payload.{Codec}
use openbao_plugin_secrets_s.Associations.{association_reservation_key, raw_reservation_name}
use openbao_plugin_secrets_s.Providers.{Capabilities}
use openbao_plugin_secrets_s.Requests.{FieldData, get_text, trimmed}
use openbao_plugin_secrets_s.DestinationFields.{aws_type, value_at, has_key}

-- Type and name of a destination.
unfoldable pub parse_destination_ref : String → Option (String × String)
parse_destination_ref destination = elim (split "/" (chars destination)) [
  | type ∷ name ∷ [] ↦
      let t = of_chars (trim_space type) in
      let n = of_chars (trim_space name) in if t == "" || n == "" then none else some (t, n)
  | _ ↦ none
]

-- Both are empty where the field is not required and is missing.
unfoldable pub association_destination_from_field_data : FieldData → Bool → Option (String × String)
unfolding get_text
association_destination_from_field_data d required =
    let destination = trimmed (get_text d "destination") in
    if destination == ""
    then (if required then none else some ("", ""))
    else parse_destination_ref destination

-- A default is taken from the association that a request updates, if it has the field.
abbrev or_default : Bool → String → String → String
or_default usable value default = if usable && value != "" then value else default

abbrev base_text : Option AssociationRecord → (AssociationRecord → String) → String
base_text base f = option base "" f

abbrev pub has_granularity : Option AssociationRecord → String → Bool
has_granularity none granularity = false
has_granularity (some r) granularity = r.granularity == granularity

unfoldable pub association_granularity_default : Option AssociationRecord → String
association_granularity_default base =
    or_default true (base_text base (λ r. r.granularity)) secret_path

unfoldable pub association_format_default : Option AssociationRecord → Bool → String
association_format_default base matches = or_default matches (base_text base (λ r. r.format)) "json"

unfoldable pub association_data_mapping_default : Option AssociationRecord → Bool → String
association_data_mapping_default base matches =
    or_default matches (base_text base (λ r. r.data_mapping)) "payload"

unfoldable pub association_data_key_template_default :
    Option AssociationRecord → String → Bool → String
association_data_key_template_default base data_mapping matches =
    if data_mapping != "source-keys"
    then ""
    else or_default (matches && base_text base (λ r. r.data_mapping) == "source-keys")
        (base_text base (λ r. r.data_key_template)) "{{ key }}"

unfoldable pub association_delete_mode_default : Option AssociationRecord → String
association_delete_mode_default base =
    or_default true (base_text base (λ r. r.delete_mode)) "retain"

unfoldable pub default_name_template_for_granularity : String → String
default_name_template_for_granularity granularity =
    if granularity == secret_key then "{{ path }}/{{ key }}" else "{{ path }}"

unfoldable pub association_name_template_default : Option AssociationRecord → String → Bool → String
unfolding default_name_template_for_granularity
association_name_template_default base granularity matches =
    or_default matches (base_text base (λ r. r.name_template))
      (default_name_template_for_granularity granularity)

unfoldable pub association_resolved_name_default : Option AssociationRecord → Bool → String
association_resolved_name_default base matches =
    if matches then base_text base (λ r. r.resolved_name) else ""

abbrev pub association_enabled_default : Option AssociationRecord → Bool
association_enabled_default none = true
association_enabled_default (some r) = r.enabled

trimmed_name : String → Option String
trimmed_name name = let s = of_chars (trim "/" (chars name)) in if s == "" then none else some s

unfoldable pub resolve_secret_path_association_name :
    String → String → String → String → String → Option String
unfolding trimmed_name
resolve_secret_path_association_name path type name template resolved_name =
    if resolved_name == ""
    then option (render_association_object_name template path type name secret_path) none
        trimmed_name
    else trimmed_name resolved_name

unfoldable pub validate_secret_key_association_template :
    String → String → String → String → String → Bool
validate_secret_key_association_template path type name template resolved_name =
    resolved_name == ""
    && contains_text (chars template) (chars "{{ key }}")
    && option (render_association_object_name template path type name "key") false (λ _. true)

-- The resolved name and the name that is reserved.
unfoldable pub resolve_association_names :
    String → String → String → String → String → String → Option (String × String)
unfolding resolve_secret_path_association_name validate_secret_key_association_template
resolve_association_names path type name granularity template resolved_name =
    if granularity == secret_path
    then option (resolve_secret_path_association_name path type name template resolved_name) none
        (λ n. some (n, n))
    else if granularity == secret_key
    then (if validate_secret_key_association_template path type name template resolved_name
        then option (secret_key_reservation_name template path type name) none (λ n. some ("", n))
        else none)
    else none

unfoldable pub validate_association_format : String → String → Bool
validate_association_format granularity format =
    if format == "json" then true else format == "raw" && granularity == secret_key

unfoldable pub validate_association_capabilities : Capabilities → String → String → Bool
unfolding validate_association_format
validate_association_capabilities capabilities granularity format =
    validate_association_format granularity format
    && (if granularity == secret_path
        then capabilities.supports_secret_path
        else granularity == secret_key && capabilities.supports_secret_key)

unfoldable pub validate_association_data_mapping :
    Capabilities → String → String → String → String → Bool
validate_association_data_mapping capabilities granularity format data_mapping template =
    if data_mapping == "" || data_mapping == "payload"
    then trimmed template == ""
    else data_mapping == "source-keys"
      && capabilities.supports_data_map
      && granularity == secret_path
      && format == "json"
      && contains_text (chars template) (chars "{{ key }}")
      && option (render_data_key_template template "key") false validate_data_map_key

unfoldable pub validate_delete_mode : Capabilities → String → Bool
validate_delete_mode capabilities mode =
    if mode == "retain" || mode == "orphan"
    then true
    else mode == "delete" && capabilities.supports_delete_if_owned

abbrev pub destination_ref : String → String → String
destination_ref type name = string_append type (string_append "/" name)

abbrev joined_id : List String → String
joined_id [] = ""
joined_id (s ∷ []) = s
joined_id (s ∷ t ∷ ts) = string_append s (string_append ":" (joined_id (t ∷ ts)))

module _ ⦃codec : Codec⦄ where
  unfoldable pub new_association_id : String → String → String → String → String → String
  new_association_id path type name resolved_name granularity =
      string_append "assoc-" (
        codec.association_digest
          (joined_id (path ∷ type ∷ name ∷ resolved_name ∷ granularity ∷ [])))

-- `reservationName`: the first of the names that an association reserves.
abbrev pub reservation_name : AssociationRecord → String
reservation_name r = association_reservation_key r.provider_identity (raw_reservation_name r)

unfoldable pub validate_association_identity_update :
    Option AssociationRecord → AssociationRecord → Bool
validate_association_identity_update none r = true
validate_association_identity_update (some base) r =
    r.granularity == base.granularity
    && r.provider_identity == base.provider_identity
    && reservation_name r == reservation_name base

-- `right[key]` reads as the empty text where the key is missing.
differs_at : String → List (String × String) → List (String × String) → Bool
differs_at ignored [] updated = false
differs_at ignored ((k, v) ∷ m) updated =
    (k != ignored && value_at k updated != v) || differs_at ignored m updated

adds_key : String → List (String × String) → List (String × String) → Bool
adds_key ignored existing [] = false
adds_key ignored existing ((k, v) ∷ m) =
    (k != ignored && not (has_key k existing)) || adds_key ignored existing m

unfoldable pub association_provider_desired_state_changed :
    AssociationRecord → AssociationRecord → Bool
unfolding differs_at adds_key
association_provider_desired_state_changed existing updated =
    let ignored =
      if existing.destination_type == aws_type && updated.destination_type == aws_type
      then "delete_recovery_window_days"
      else "" in
    differs_at ignored existing.provider_config updated.provider_config
    || adds_key ignored existing.provider_config updated.provider_config

unfoldable pub association_desired_state_changed : AssociationRecord → AssociationRecord → Bool
association_desired_state_changed existing updated =
    existing.format != updated.format
    || existing.data_mapping != updated.data_mapping
    || existing.data_key_template != updated.data_key_template
    || association_provider_desired_state_changed existing updated
