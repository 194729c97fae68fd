-- ===== src/Payload.antt =====
-- internal/payload and the payload building of internal/backend/dispatcher.go and granularity.go.
-- encoding/json, crypto/sha256 and time.ParseDuration (in nanoseconds) are the parameter `Codec`;
-- bytes are texts.
use openbao_plugin_secrets_s.Prelude.{
  ℤ, Bool, true, false, not, ◌||◌, List, [], ◌∷◌, ◌++◌, Option, none, some, String, ◌==◌, ◌!=◌,
  if◌then◌else◌, string_eq, map,
}
use Prim.Native.String.{◌++◌ as string_append}
use openbao_plugin_secrets_s.Records.{
  SecretValue, text, other_json, SecretPayload, AssociationRecord,
}
use openbao_plugin_secrets_s.Outbox.Listing.{sort_by, string_lt}
use openbao_plugin_secrets_s.Naming.{
  ◌>>=◌, is_blank_or_padded, render_data_key_template, validate_data_map_key,
  validate_secret_key_object_id, secret_path, secret_key, normalized_data_mapping,
}

pub record Codec : Type 0 where
  pub encode_values : SecretPayload → Option String
  pub encode_bytes : List (String × String) → Option String
  pub sha256 : String → String
  pub name_digest : String → String
  pub operation_digest : String → String
  pub association_digest : String → String
  pub parse_duration : String → Option ℤ

pub record CanonicalPayload : Type 0 where
  pub format : String
  pub bytes : String
  pub sha256 : String
  pub entries : List (String × String)

abbrev raw_bytes : SecretValue → Option String
raw_bytes (text s) = some s
raw_bytes (other_json _) = none

unfoldable pub lookup_value : String → SecretPayload → Option SecretValue
lookup_value key [] = none
lookup_value key ((k, v) ∷ rest) = if k == key then some v else lookup_value key rest

abbrev payload_keys : SecretPayload → List String
payload_keys = map λ e. e.0

abbrev has_entry : String → List (String × String) → Bool
has_entry key [] = false
has_entry key ((k, v) ∷ rest) = k == key || has_entry key rest

module _ ⦃codec : Codec⦄ where
  build_json : SecretPayload → Option CanonicalPayload
  build_json [] = none
  build_json (e ∷ rest) = do
    bytes ← codec.encode_values (e ∷ rest)
    some (record {
      format = "json";
      bytes = bytes;
      sha256 = string_append "sha256:" (codec.sha256 bytes);
      entries = [];
    })

  build_raw : SecretValue → Option CanonicalPayload
  build_raw value = do
    bytes ← raw_bytes value
    some (record {
      format = "raw";
      bytes = bytes;
      sha256 = string_append "sha256:" (codec.sha256 bytes);
      entries = [];
    })

  build_data_map : List (String × String) → Option CanonicalPayload
  build_data_map [] = none
  build_data_map (e ∷ rest) = do
    bytes ← codec.encode_bytes (e ∷ rest)
    some (record {
      format = "data-map";
      bytes = bytes;
      sha256 = string_append "sha256:" (codec.sha256 bytes);
      entries = e ∷ rest;
    })

  -- The loop over the source keys, with the map that it builds.
  data_map_entries :
      String → SecretPayload → List (String × String) → Option (List (String × String))
  data_map_entries template [] entries = some entries
  data_map_entries template ((key, value) ∷ rest) entries =
      if is_blank_or_padded key then none else do
        data_key ← render_data_key_template template key
        bytes ← raw_bytes value
        let more = data_map_entries template rest (entries ++ (data_key, bytes) ∷ [])
        if not (validate_data_map_key data_key) || has_entry data_key entries then none else more

  pub build_data_map_payload_for_association :
      AssociationRecord → SecretPayload → Option CanonicalPayload
  build_data_map_payload_for_association r payload = do
    entries ← data_map_entries r.data_key_template payload []
    build_data_map entries

  one_value : String → SecretPayload → Option SecretPayload
  one_value object_id payload = do
    value ← lookup_value object_id payload
    some ((object_id, value) ∷ [])

  pub build_canonical_payload_for_object :
      AssociationRecord → SecretPayload → String → Option CanonicalPayload
  build_canonical_payload_for_object r payload object_id =
      if normalized_data_mapping r.data_mapping == "source-keys"
      then (if r.granularity != secret_path || object_id != secret_path
          then none
          else build_data_map_payload_for_association r payload)
      else if r.format == "json"
      then (if r.granularity == secret_path
          then build_json payload
          else if r.granularity == secret_key
          then one_value object_id payload >>= build_json
          else none)
      else if r.format == "raw"
      then (if r.granularity != secret_key
          then none
          else lookup_value object_id payload >>= build_raw)
      else none

  all_valid_ids : List String → Bool
  all_valid_ids [] = true
  all_valid_ids (k ∷ ks) = if validate_secret_key_object_id k then all_valid_ids ks else false

  abbrev some_ids : List String → Option (List String)
  some_ids [] = none
  some_ids (i ∷ is) = some (i ∷ is)

  pub association_object_ids : AssociationRecord → SecretPayload → Option (List String)
  unfolding all_valid_ids
  association_object_ids r payload =
      if r.granularity == secret_path
      then (if normalized_data_mapping r.data_mapping == "source-keys"
          then build_data_map_payload_for_association r payload >>= (λ _. some (secret_path ∷ []))
          else some (secret_path ∷ []))
      else if r.granularity == secret_key
      then (if all_valid_ids (payload_keys payload)
          then some_ids (sort_by string_lt (payload_keys payload))
          else none)
      else none
