-- ===== src/Config.antt =====
-- internal/backend/path_config.go: the global configuration as the other parts read it. A stored
-- configuration is one that `decodeGlobalConfigEntry` accepts, its missing fields filled in.
pub mod Frame
pub mod Reads
use openbao_plugin_secrets_s.Prelude.{
  Bool, true, false, Option, none, some, String, ◌==◌, if◌then◌else◌, string_eq,
}
use openbao_plugin_secrets_s.Records.{GlobalConfig, MetadataRecord, AssociationRecord, blank}
use openbao_plugin_secrets_s.Storage.{
  config_key, Value, config_value, Error, decode_failed, Env, M, ◌>>=◌, pure, throw, option,
  get_entry,
}

unfoldable pub default_global_config : GlobalConfig
default_global_config = record {
  security_posture = "standard";
  disabled = false;
  restore_guard = false;
  restore_guard_acknowledged_time = blank;
  queue_capacity = 1000;
  drift_repair = "off";
  drift_reconcile_interval = "1h";
  drift_reconcile_batch = 16;
  event_dispatch_enabled = true;
  event_dispatch_max_operations = 16;
  updated_time = blank;
}

abbrev pub source_sync_required : GlobalConfig → Bool
source_sync_required cfg = cfg.security_posture == "hardened"

abbrev pub destination_constraints_required : GlobalConfig → Bool
destination_constraints_required cfg = cfg.security_posture == "hardened"

abbrev sync_enabled : Option MetadataRecord → Bool
sync_enabled none = false
sync_enabled (some m) = m.source_sync_enabled

-- `true` is a nil error.
unfoldable pub validate_source_eligibility : Option MetadataRecord → GlobalConfig → Bool
validate_source_eligibility metadata cfg =
    if source_sync_required cfg then sync_enabled metadata else true

unfoldable pub validate_association_activation :
    AssociationRecord → Option MetadataRecord → GlobalConfig → Bool
unfolding validate_source_eligibility
validate_association_activation r metadata cfg =
    if r.enabled then validate_source_eligibility metadata cfg else true

module _ ⦃env : Env⦄ where
  abbrev pub decode_global_config_entry : Value → M GlobalConfig
  decode_global_config_entry (config_value cfg) = pure cfg
  decode_global_config_entry _ = throw decode_failed

  pub read_global_config : M GlobalConfig
  read_global_config = do
    entry ← get_entry config_key
    option entry (pure default_global_config) decode_global_config_entry
