-- ===== src/RuntimeState/Frame.antt =====
-- The runtime state of runtime_state.go and the keys that it may touch.
use openbao_plugin_secrets_s.Prelude.{Bool, true, false, refl, String, ◌==◌, string_eq}
use openbao_plugin_secrets_s.Records.{Stamp}
use openbao_plugin_secrets_s.Storage.{
  Key, storage_schema_key, restore_epoch_key, config_key, Value, schema_value, epoch_value,
  decode_failed, Contents, Env,
}
use openbao_plugin_secrets_s.Storage.Keeps.{
  Keeps, Keeps-throw, Keeps-get, Keeps-bind, Keeps-if, Keeps-pure, Keeps-option, Keeps-now,
  Keeps-random,
}
use openbao_plugin_secrets_s.Storage.Triples.{Ignores, Keeps-put_ignored}
use openbao_plugin_secrets_s.Config.Frame.{Keeps-decode}
use openbao_plugin_secrets_s.RuntimeState.{
  decode_schema, new_schema, ensure_storage_schema, validate_storage_schema, decode_epoch,
  new_runtime_id, rotate_restore_epoch, ensure_restore_epoch, ensure_global_config,
  ensure_runtime_state,
}

abbrev pub is_runtime_key : Key → Bool
is_runtime_key storage_schema_key = true
is_runtime_key restore_epoch_key = true
is_runtime_key config_key = true
is_runtime_key _ = false

module _ ⦃env : Env⦄ {I : Contents → Type 0} where
  pub Keeps-new_runtime_id : (prefix : String) → Keeps I (new_runtime_id prefix)
  unfolding new_runtime_id
  Keeps-new_runtime_id prefix = Keeps-bind _ _ Keeps-random λ id. Keeps-pure _

  pub Keeps-decode_schema : (v : Value) → Keeps I (decode_schema v)
  Keeps-decode_schema (schema_value r) = Keeps-pure _
  Keeps-decode_schema _ = Keeps-throw decode_failed

  pub Keeps-decode_epoch : (v : Value) → Keeps I (decode_epoch v)
  Keeps-decode_epoch (epoch_value r) = Keeps-pure r
  Keeps-decode_epoch _ = Keeps-throw decode_failed

module _ ⦃env : Env⦄ {I : Contents → Type 0} (g : Ignores is_runtime_key I) where
  Keeps-ensure_storage_schema : (now : Stamp) → Keeps I (ensure_storage_schema now)
  unfolding ensure_storage_schema new_schema
  Keeps-ensure_storage_schema now = Keeps-bind _ _ (Keeps-get storage_schema_key) λ entry.
      Keeps-option entry _ _
        (Keeps-bind _ _ (Keeps-put_ignored is_runtime_key g _ _ refl) λ _. Keeps-pure _)
        λ v.
          Keeps-bind _ _ (Keeps-decode_schema v)
            λ r. Keeps-if (validate_storage_schema r) _ _ (λ _. Keeps-pure r) λ _. Keeps-throw _

  pub Keeps-rotate_restore_epoch : (now : Stamp) → Keeps I (rotate_restore_epoch now)
  unfolding rotate_restore_epoch
  Keeps-rotate_restore_epoch now =
      Keeps-bind _ _ (Keeps-new_runtime_id "epoch")
        λ epoch. Keeps-bind _ _ (Keeps-put_ignored is_runtime_key g _ _ refl) λ _. Keeps-pure _

  Keeps-ensure_restore_epoch : (now : Stamp) → Keeps I (ensure_restore_epoch now)
  unfolding ensure_restore_epoch
  Keeps-ensure_restore_epoch now = Keeps-bind _ _ (Keeps-get restore_epoch_key) λ entry.
      Keeps-option entry _ _ (Keeps-rotate_restore_epoch now) λ v.
        Keeps-bind _ _ (Keeps-decode_epoch v)
          λ r. Keeps-if (r.epoch == "") _ _ (λ _. Keeps-throw _) λ _. Keeps-pure r

  Keeps-ensure_global_config : (now : Stamp) → Keeps I (ensure_global_config now)
  unfolding ensure_global_config
  Keeps-ensure_global_config now = Keeps-bind _ _ (Keeps-get config_key) λ entry.
      Keeps-option entry _ _ (Keeps-put_ignored is_runtime_key g _ _ refl)
        λ v. Keeps-bind _ _ (Keeps-decode v) λ _. Keeps-pure tt

  pub Keeps-ensure_runtime_state : Keeps I ensure_runtime_state
  unfolding ensure_runtime_state
  Keeps-ensure_runtime_state = Keeps-bind _ _ Keeps-now λ time.
      Keeps-bind _ _ (Keeps-ensure_storage_schema _) λ _.
        Keeps-bind _ _ (Keeps-ensure_restore_epoch _)
          λ epoch. Keeps-bind _ _ (Keeps-ensure_global_config _) λ _. Keeps-pure _
