-- ===== src/Config/Frame.antt =====
-- The read of the configuration (path_config.go) and the keys that it may touch.
use openbao_plugin_secrets_s.Storage.{config_key, Value, config_value, decode_failed, Contents, Env}
use openbao_plugin_secrets_s.Storage.Keeps.{
  Keeps, Keeps-throw, Keeps-get, Keeps-bind, Keeps-pure, Keeps-option,
}
use openbao_plugin_secrets_s.Config.{
  read_global_config, decode_global_config_entry, default_global_config,
}

module _ ⦃env : Env⦄ {I : Contents → Type 0} where
  pub Keeps-decode : (v : Value) → Keeps I (decode_global_config_entry v)
  Keeps-decode (config_value cfg) = Keeps-pure cfg
  Keeps-decode _ = Keeps-throw decode_failed

  pub Keeps-read_global_config : Keeps I read_global_config
  unfolding read_global_config
  Keeps-read_global_config =
      Keeps-bind _ _ (Keeps-get config_key)
        λ entry. Keeps-option entry _ _ (Keeps-pure default_global_config) Keeps-decode
