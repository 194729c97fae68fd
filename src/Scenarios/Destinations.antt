-- ===== src/Scenarios/Destinations.antt =====
-- The theorems on destinations, at a concrete destination.
use openbao_plugin_secrets_s.Prelude.{
  ◌≡◌, refl, ◌⊎◌, inr, false, List, [], ◌∷◌, some, String, string_eq,
}
use openbao_plugin_secrets_s.Records.{stamp, DestinationRecord, DestinationSensitiveRecord}
use openbao_plugin_secrets_s.Storage.{
  Key-discrete, destination_key, destination_sensitive_version_key, destination_value,
  sensitive_value, ◌>>=◌,
}
use openbao_plugin_secrets_s.Storage.Triples.{Ends}
use openbao_plugin_secrets_s.RuntimeState.{new_runtime_id}
use openbao_plugin_secrets_s.Associations.{override_entries, destination_config}
use openbao_plugin_secrets_s.Associations.StoredConfig.{Replaces, Configured, Replaced}
use openbao_plugin_secrets_s.Associations.Configured.{
  entry_at, NamesOnce, SensitiveStands, versioned, ReadFails, in_force, destination_config-in_force,
}
use openbao_plugin_secrets_s.Destinations.{store_destination_write}
use openbao_plugin_secrets_s.Destinations.Atomicity.{
  PutsAtomically, DrawsOther, store_destination_write-Replaced,
}
use openbao_plugin_secrets_s.Scenarios.Memory.{Entries, lookup, service}

abbrev pub destination : DestinationRecord
destination = record {
  type = "vault";
  name = "main";
  description = "";
  disabled = false;
  config = ("address", "https://vault") ∷ ("token", "unset") ∷ [];
  sensitive_config_version = "v-1";
  allowed_source_path_prefixes = [];
  allowed_resolved_name_prefixes = [];
  created_time = stamp 1000;
  updated_time = stamp 1000;
}

abbrev pub secret : DestinationSensitiveRecord
secret = record {
  type = "vault";
  name = "main";
  config = ("token", "old") ∷ [];
  created_time = stamp 1000;
  updated_time = stamp 1000;
}

abbrev entries : Entries
entries =
    (destination_key "vault" "main", destination_value destination)
    ∷ (destination_sensitive_version_key "vault" "main" "v-1", sensitive_value secret)
    ∷ []

abbrev config : List (String × String)
config = override_entries secret.config destination.config

entries-Replaces : Replaces destination (lookup entries)
unfolding lookup Key-discrete
entries-Replaces = inr (destination, refl, refl, refl, refl)

entries-Configured : Configured destination (some config) (lookup entries)
unfolding lookup Key-discrete
entries-Configured = refl

service-PutsAtomically : PutsAtomically service
service-PutsAtomically k v s t e p = cc p

service-DrawsOther : DrawsOther service "v-1"
unfolding new_runtime_id ◌>>=◌
service-DrawsOther P = record { run = λ s p. (p, ((λ e. cc e), (λ e. cc e), λ e. cc e)) }

store_destination_write-Replaced_example :
    Ends
      (λ _. Replaced destination (("token", "new") ∷ []))
      (λ c. Configured destination (some config) c ⊎ Replaced destination (("token", "new") ∷ []) c)
      (store_destination_write destination
        (("token", "new") ∷ [])
        (stamp 1000)
        (stamp 2000)
        entries)
store_destination_write-Replaced_example =
    (store_destination_write-Replaced destination (("token", "new") ∷ []) (stamp 1000) (stamp 2000)
        (some config) service-PutsAtomically service-DrawsOther).run
      entries (entries-Replaces, entries-Configured)

secret-NamesOnce : NamesOnce secret.config
unfolding entry_at
secret-NamesOnce = (refl, tt)

entries-SensitiveStands : SensitiveStands destination (some secret) (lookup entries)
unfolding lookup Key-discrete
entries-SensitiveStands =
    versioned (λ e. cc ((string_eq.same_iff "v-1" "none").1 e))
      (λ e. cc ((string_eq.same_iff "v-1" "").1 e)) refl

destination_config-in_force_example :
    Ends
      (λ found c. (key : String) → entry_at key found ≡ in_force destination (some secret) key)
      (ReadFails service)
      (destination_config destination entries)
destination_config-in_force_example =
    (destination_config-in_force destination (some secret) secret-NamesOnce).run entries
      entries-SensitiveStands
