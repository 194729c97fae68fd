-- ===== src/Scenarios/Sweeps.antt =====
-- The theorems on the sweeps for drift, at a provider that only reads.
use openbao_plugin_secrets_s.Prelude.{
  ◌≡◌, refl, true, false, [], ◌∷◌, Option, none, some, string_eq, subst,
}
use openbao_plugin_secrets_s.Records.{
  GlobalConfig, MetadataRecord, VersionRecord, stamp, blank, text, AssociationRecord,
}
use openbao_plugin_secrets_s.Storage.{
  Key, Key-discrete, Value, association_key, association_value, metadata_key, metadata_value,
  version_key, version_value, destination_key, destination_value, destination_sensitive_version_key,
  sensitive_value, outbox_key, outbox_value, pure, left,
}
use openbao_plugin_secrets_s.Storage.Keeps.{Keeps-pure}
use openbao_plugin_secrets_s.Config.{default_global_config}
use openbao_plugin_secrets_s.Source.{new_metadata_record}
use openbao_plugin_secrets_s.Providers.{Provider, Plugin, accepted}
use openbao_plugin_secrets_s.Reconcile.Objects.Frame.{ReadsKeep}
use openbao_plugin_secrets_s.PeriodicReconcile.{periodic_drift_reconcile}
use openbao_plugin_secrets_s.PeriodicReconcile.Detection.{
  repairs, ReadOnly, periodic_drift_reconcile-detects,
}
use openbao_plugin_secrets_s.Scenarios.Memory.{Entries, lookup, service}
use openbao_plugin_secrets_s.Scenarios.Runs.{operation}
use openbao_plugin_secrets_s.Scenarios.Writes.{plain}
use openbao_plugin_secrets_s.Scenarios.Destinations.{destination, secret}
use openbao_plugin_secrets_s.Scenarios.Associations.{association, remote}

abbrev reader : Provider
reader = record {
  type = "vault";
  capabilities = record {
    supports_value_readback = true;
    supports_metadata_readback = true;
    supports_payload_hash_metadata = true;
    supports_update_if_owned = true;
    supports_delete_if_owned = true;
    supports_secret_path = true;
    supports_secret_key = true;
    supports_data_map = true;
    max_payload_bytes = 65536;
  };
  validate_config = λ c. pure none;
  normalize_association_config = λ c a. pure (accepted a);
  health = λ c. pure (accepted none);
  plan = λ c q. pure (accepted none);
  upsert = λ q. pure (accepted "1");
  delete = λ q. pure (accepted "1");
  read_state = λ c q. pure (accepted (some remote));
}

abbrev plugin : Plugin
plugin = record { mount_uuid = "mount"; worker_id = "worker"; registry = λ type. some reader }

abbrev linked : AssociationRecord
linked = record association { destination_type = "vault" }

abbrev source : MetadataRecord
source = record (new_metadata_record "g") { current_version = 1 }

abbrev version : VersionRecord
version = record {
  version = 1;
  created_time = stamp 1000;
  payload = ("password", text "hunter2") ∷ [];
  deletion_time = blank;
  destroyed = false;
}

abbrev entries : Entries
entries =
    (association_key "team/app" linked.id, association_value linked)
    ∷ (metadata_key "team/app", metadata_value source)
    ∷ (version_key "team/app" 1, version_value version)
    ∷ (destination_key "vault" "main", destination_value destination)
    ∷ (destination_sensitive_version_key "vault" "main" "v-1", sensitive_value secret)
    ∷ (outbox_key "op-1", outbox_value operation)
    ∷ []

abbrev guarded : GlobalConfig
guarded = record default_global_config { restore_guard = true; drift_repair = "repair" }

guarded-repairs : repairs guarded ≡ false
unfolding repairs default_global_config
guarded-repairs = refl

reader-ReadOnly : (k : Key) (o : Option Value) → ReadOnly (λ c. c k ≡ o) plugin
reader-ReadOnly k o type p e =
    let same : reader ≡ p = cc e in
    subst (ReadsKeep (λ c. c k ≡ o)) same (λ c q. Keeps-pure (accepted (some remote)))

queued_stands : lookup entries (outbox_key "op-1") ≡ some (outbox_value operation)
unfolding lookup Key-discrete
queued_stands = refl

periodic_drift_reconcile-detects_example :
    lookup
      (left (periodic_drift_reconcile plugin guarded 2000000000000 entries))
      (outbox_key "op-1")
    ≡ some (outbox_value operation)
periodic_drift_reconcile-detects_example =
    periodic_drift_reconcile-detects plugin guarded 2000000000000 (outbox_key "op-1")
      (some (outbox_value operation)) guarded-repairs refl refl
      (reader-ReadOnly (outbox_key "op-1") (some (outbox_value operation))) entries queued_stands
