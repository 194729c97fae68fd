-- ===== src/RuntimeState.antt =====
-- internal/backend/runtime_state.go: the storage schema and the restore epoch of the mount.
pub mod Epochs
pub mod Frame
use openbao_plugin_secrets_s.Prelude.{
  ℕ, Bool, false, not, String, ◌==◌, if◌then◌else◌, string_eq, nat_eq, ltb,
}
use Prim.Native.String.{◌++◌ as string_append}
use openbao_plugin_secrets_s.Records.{Stamp, format_time, StorageSchemaRecord, RestoreEpochRecord}
use openbao_plugin_secrets_s.Storage.{
  storage_schema_key, restore_epoch_key, config_key, Value, schema_value, epoch_value, config_value,
  decode_failed, refused, Env, M, ◌>>=◌, ◌>>◌, pure, throw, option, get_entry, put_entry, now_utc,
}
use openbao_plugin_secrets_s.Config.{default_global_config, decode_global_config_entry}

abbrev current_storage_schema : ℕ
current_storage_schema = 1

abbrev min_supported_storage_schema : ℕ
min_supported_storage_schema = 1

unfoldable pub validate_storage_schema_versions : StorageSchemaRecord → ℕ → ℕ → Bool
validate_storage_schema_versions r current min_supported =
    if r.version == 0
    then false
    else if ltb r.version min_supported
    then false
    else not (ltb current r.min_compatible_version)

-- A stored record without a minimum has its own version for one.
abbrev pub with_min_compatible : StorageSchemaRecord → StorageSchemaRecord
with_min_compatible r = record r {
  min_compatible_version =
      if r.min_compatible_version == 0 then r.version else r.min_compatible_version;
}

unfoldable pub validate_storage_schema : StorageSchemaRecord → Bool
unfolding validate_storage_schema_versions
validate_storage_schema r =
    validate_storage_schema_versions r current_storage_schema min_supported_storage_schema

module _ ⦃env : Env⦄ where
  abbrev decode_schema : Value → M StorageSchemaRecord
  decode_schema (schema_value r) = pure (with_min_compatible r)
  decode_schema _ = throw decode_failed

  new_schema : Stamp → M StorageSchemaRecord
  new_schema now =
      let r : StorageSchemaRecord = record {
        version = current_storage_schema;
        min_compatible_version = min_supported_storage_schema;
        created_time = now;
        updated_time = now;
      } in
      do put_entry storage_schema_key (schema_value r); pure r

  pub ensure_storage_schema : Stamp → M StorageSchemaRecord
  ensure_storage_schema now = do
    entry ← get_entry storage_schema_key
    option entry (new_schema now) λ v. do
      r ← decode_schema v
      if validate_storage_schema r then pure r else throw (refused "incompatible storage schema")

  abbrev decode_epoch : Value → M RestoreEpochRecord
  decode_epoch (epoch_value r) = pure r
  decode_epoch _ = throw decode_failed

  -- `newRuntimeID`, of which the random part is a text.
  unfoldable pub new_runtime_id : String → M String
  new_runtime_id prefix = do id ← env.random_id; pure (string_append prefix (string_append "-" id))

  pub rotate_restore_epoch : Stamp → M RestoreEpochRecord
  rotate_restore_epoch now = do
    epoch ← new_runtime_id "epoch"
    put_entry restore_epoch_key
        (epoch_value (record { epoch = epoch; created_time = now; updated_time = now }))
    pure (record { epoch = epoch; created_time = now; updated_time = now })

  pub ensure_restore_epoch : Stamp → M RestoreEpochRecord
  ensure_restore_epoch now = do
    entry ← get_entry restore_epoch_key
    option entry (rotate_restore_epoch now) λ v. do
      r ← decode_epoch v
      if r.epoch == "" then throw (refused "restore epoch is empty") else pure r

  ensure_global_config : Stamp → M (Unit {0})
  ensure_global_config now = do
    entry ← get_entry config_key
    option entry
        (put_entry config_key (
          config_value (record default_global_config {
            restore_guard_acknowledged_time = now;
            updated_time = now;
          })))
        λ v. do _ ← decode_global_config_entry v; pure tt

  -- The restore epoch of the state that it ensures.
  pub ensure_runtime_state : M String
  ensure_runtime_state = do
    time ← now_utc
    _ ← ensure_storage_schema (format_time time)
    epoch ← ensure_restore_epoch (format_time time)
    ensure_global_config (format_time time)
    pure epoch.epoch
