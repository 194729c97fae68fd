-- ===== src/Associations.antt =====
-- internal/backend/storage_association.go, storage_destination.go and the reservation names of
-- path_associations.go: associations, their indexes, and destinations.
pub mod Reservations
pub mod Reads
pub mod Frame
pub mod StoredConfig
pub mod Sure
pub mod Configured
use openbao_plugin_secrets_s.Prelude.{
  ℕ, Bool, true, false, not, ◌&&◌, ◌||◌, List, [], ◌∷◌, ◌++◌, Option, none, some, String, ◌==◌,
  ◌!=◌, if◌then◌else◌, string_eq, contains, map,
}
use Prim.Native.String.{◌++◌ as string_append}
use openbao_plugin_secrets_s.Records.{
  AssociationRecord, DestinationRecord, DestinationSensitiveRecord, MetadataRecord, SecretPayload,
}
use openbao_plugin_secrets_s.Storage.{
  Key, association_key, association_by_destination_key, association_name_key, destination_key,
  associations_of, reservations_of, Value, association_value, destination_value, id_value,
  sensitive_value, destination_sensitive_key, destination_sensitive_version_key,
  destination_associations_of, Error, decode_failed, refused, Env, M, ◌>>=◌, ◌>>◌, pure, throw,
  option, get_entry, put_entry, delete_entry,
}
use openbao_plugin_secrets_s.Outbox.Records.{key_eq}
use openbao_plugin_secrets_s.Outbox.Listing.{sort_by, string_lt}
use openbao_plugin_secrets_s.Naming.{
  secret_key, secret_key_reservation_name, association_resolved_name_for_object,
}
use openbao_plugin_secrets_s.Payload.{Codec, association_object_ids}

abbrev skip_repeats : String → List String → List String
skip_repeats last [] = []
skip_repeats last (v ∷ vs) = if v == last then skip_repeats last vs else v ∷ skip_repeats v vs

abbrev unique_of_sorted : List String → List String
unique_of_sorted [] = []
unique_of_sorted (v ∷ vs) = v ∷ skip_repeats v vs

unfoldable pub unique_sorted_strings : List String → List String
unfolding sort_by
unique_sorted_strings input = unique_of_sorted (sort_by string_lt input)

-- The separator is the character NUL.
unfoldable pub association_reservation_key : String → String → String
association_reservation_key provider_identity resolved_name =
    if provider_identity == ""
    then resolved_name
    else string_append provider_identity (string_append "\0" resolved_name)

unfoldable pub raw_reservation_name : AssociationRecord → String
raw_reservation_name r =
    if r.granularity == secret_key
    then option
        (secret_key_reservation_name r.name_template r.path r.destination_type r.destination_name)
        r.name_template (λ name. name)
    else r.resolved_name

pub reservation_names_of : AssociationRecord → List String
unfolding association_reservation_key raw_reservation_name unique_sorted_strings
reservation_names_of r = unique_sorted_strings (
    association_reservation_key r.provider_identity (raw_reservation_name r)
    ∷ map (association_reservation_key r.provider_identity) r.reservation_names)

abbrev pub normalize_association_defaults : AssociationRecord → AssociationRecord
normalize_association_defaults r = record r {
  delete_mode = if r.delete_mode == "" then "retain" else r.delete_mode;
}

unfoldable pub all_names : AssociationRecord → List String → Option (List String)
all_names r [] = some []
all_names r (id ∷ ids) =
    option (association_resolved_name_for_object r id) none
      λ name. option (all_names r ids) none λ names. some (name ∷ names)

module _ ⦃codec : Codec⦄ where
  pub association_with_concrete_reservation_names :
      AssociationRecord → SecretPayload → Option AssociationRecord
  association_with_concrete_reservation_names r payload =
      if r.granularity != secret_key
      then some (record r { reservation_names = [] })
      else option (association_object_ids r payload) none λ ids.
        option (all_names r ids) none
          λ names. some (record r { reservation_names = unique_sorted_strings names })

abbrev pub set_entry : String × String → List (String × String) → List (String × String)
set_entry (k, v) [] = (k, v) ∷ []
set_entry (k, v) ((j, w) ∷ m) = if j == k then (k, v) ∷ m else (j, w) ∷ set_entry (k, v) m

abbrev pub override_entries :
    List (String × String) → List (String × String) → List (String × String)
override_entries [] m = m
override_entries (e ∷ es) m = override_entries es (set_entry e m)

abbrev pub sensitive_key_of : String → String → String → Key
sensitive_key_of type name version =
    if version == ""
    then destination_sensitive_key type name
    else destination_sensitive_version_key type name version

module _ ⦃env : Env⦄ where
  abbrev decode_association : Value → M AssociationRecord
  decode_association (association_value r) = pure r
  decode_association _ = throw decode_failed

  pub get_association : String → String → M (Option AssociationRecord)
  get_association path id = do
    entry ← get_entry (association_key path id)
    option entry (pure none)
        λ v. do r ← decode_association v; pure (some (normalize_association_defaults r))

  abbrev decode_destination : Value → M DestinationRecord
  decode_destination (destination_value r) = pure r
  decode_destination _ = throw decode_failed

  pub get_destination : String → String → M (Option DestinationRecord)
  get_destination type name = do
    entry ← get_entry (destination_key type name)
    option entry (pure none) λ v. do r ← decode_destination v; pure (some r)

  abbrev decode_sensitive : Value → M DestinationSensitiveRecord
  decode_sensitive (sensitive_value r) = pure r
  decode_sensitive _ = throw decode_failed

  -- The version "none" stands for no sensitive configuration.
  pub get_destination_sensitive_config_for_record :
      DestinationRecord → M (Option DestinationSensitiveRecord)
  get_destination_sensitive_config_for_record r =
      if r.sensitive_config_version == "none" then pure none else do
        entry ← get_entry (sensitive_key_of r.type r.name r.sensitive_config_version)
        option entry (pure none) λ v. do s ← decode_sensitive v; pure (some s)

  -- The sensitive entries override those of the record.
  pub destination_config : DestinationRecord → M (List (String × String))
  destination_config r = do
    sensitive ← get_destination_sensitive_config_for_record r
    pure (option sensitive r.config λ s. override_entries s.config r.config)

  abbrev cons_association :
      Option AssociationRecord → List AssociationRecord → List AssociationRecord
  cons_association none rs = rs
  cons_association (some r) rs = r ∷ rs

  read_associations : String → List String → M (List AssociationRecord)
  read_associations path [] = pure []
  read_associations path (id ∷ ids) = do
    r ← get_association path id
    rest ← read_associations path ids
    pure (cons_association r rest)

  pub list_associations_for_path : String → M (List AssociationRecord)
  list_associations_for_path path = do
    ids ← env.list (associations_of path)
    read_associations path ids

  abbrev is_live : Option DestinationRecord → Bool
  is_live none = false
  is_live (some d) = not d.disabled

  enabled_associations : List AssociationRecord → M (List AssociationRecord)
  enabled_associations [] = pure []
  enabled_associations (r ∷ rs) =
      let others = enabled_associations rs in
      if not r.enabled then others else do
        d ← get_destination r.destination_type r.destination_name
        rest ← others
        pure (if is_live d then r ∷ rest else rest)

  pub enabled_associations_for_path : String → M (List AssociationRecord)
  enabled_associations_for_path path = do
    records ← list_associations_for_path path
    enabled_associations records

  put_all : List Key → String → M (Unit {0})
  put_all [] path = pure tt
  put_all (k ∷ ks) path = do put_entry k (id_value path); put_all ks path

  delete_all_except : List Key → List Key → M (Unit {0})
  delete_all_except retained [] = pure tt
  delete_all_except retained (k ∷ ks) = do
    if contains retained k then pure tt else delete_entry k
    delete_all_except retained ks

  abbrev decode_path : Value → M String
  decode_path (id_value path) = pure path
  decode_path _ = throw decode_failed

  get_association_from_index : Key → String → M (Option AssociationRecord)
  get_association_from_index index_key id = do
    entry ← get_entry index_key
    option entry (pure none)
        λ v. do path ← decode_path v; if path == "" then pure none else get_association path id

  abbrev is_of_destination : String → String → Option AssociationRecord → Bool
  is_of_destination type name none = false
  is_of_destination type name (some r) = r.destination_type == type && r.destination_name == name

  live_destination_ids : String → String → List String → M (List String)
  live_destination_ids type name [] = pure []
  live_destination_ids type name (id ∷ ids) = do
    r ← get_association_from_index (association_by_destination_key type name id) id
    rest ← live_destination_ids type name ids
    pure (if is_of_destination type name r then id ∷ rest else rest)

  pub list_association_ids_for_destination : String → String → M (List String)
  list_association_ids_for_destination type name = do
    ids ← env.list (destination_associations_of type name)
    live_destination_ids type name ids

  module _ ⦃codec : Codec⦄ where
    pub reservation_keys : AssociationRecord → List Key
    reservation_keys r =
        map (λ name. association_name_key r.destination_ref (codec.name_digest name) r.id)
          (reservation_names_of r)

    delete_stale_association_indexes : AssociationRecord → AssociationRecord → M (Unit {0})
    delete_stale_association_indexes existing updated = do
      if existing.destination_type != updated.destination_type
            || existing.destination_name != updated.destination_name
          then delete_entry (
              association_by_destination_key existing.destination_type existing.destination_name
                existing.id)
          else pure tt
      delete_all_except (reservation_keys updated) (reservation_keys existing)

    -- The writes of `putAssociation`, from the association that was stored before.
    put_association_records : AssociationRecord → Option AssociationRecord → M (Unit {0})
    put_association_records r existing = do
      put_entry (association_by_destination_key r.destination_type r.destination_name r.id)
          (id_value r.path)
      put_all (reservation_keys r) r.path
      put_entry (association_key r.path r.id) (association_value r)
      option existing (pure tt) λ old. delete_stale_association_indexes old r

    pub put_association : AssociationRecord → M (Unit {0})
    put_association r = do
      existing ← get_association r.path r.id
      put_association_records r existing

    pub delete_association : AssociationRecord → M (Unit {0})
    delete_association r = do
      delete_entry (association_key r.path r.id)
      delete_entry (association_by_destination_key r.destination_type r.destination_name r.id)
      delete_all_except [] (reservation_keys r)
