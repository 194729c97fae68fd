-- ===== src/Config/Reads.antt =====
-- What a read of the configuration gives, from the stored contents.
use openbao_plugin_secrets_s.Prelude.{◌≡◌, refl, sym, ◌∙◌, Option, none, some, ◌⊎◌, inl, inr}
use openbao_plugin_secrets_s.Records.{GlobalConfig}
use openbao_plugin_secrets_s.Storage.{config_key, Value, config_value, decode_failed, Contents, Env}
use openbao_plugin_secrets_s.Storage.Triples.{
  Triple, Triple-bind, Triple-get, Triple-pure, Triple-throw, Triple-option,
}
use openbao_plugin_secrets_s.Config.{
  read_global_config, decode_global_config_entry, default_global_config,
}

-- The configuration in force: the stored one, or the default when none is stored.
abbrev pub InForce : Contents → GlobalConfig → Type 0
InForce c cfg =
    ((c config_key ≡ none) × (cfg ≡ default_global_config))
    ⊎ (c config_key ≡ some (config_value cfg))

module _ ⦃env : Env⦄ where
  decoded :
      (I : Contents → Type 0) (o : Option Value) (v : Value)
      → o ≡ some v
      → Triple
          (λ c. I c × (o ≡ c config_key))
          (decode_global_config_entry v)
          (λ cfg c. I c × InForce c cfg)
          I
  decoded I o (config_value cfg) e = Triple-pure cfg (λ c h. (h.0, inr (sym h.1 ∙ e)))
  decoded I o _ e = Triple-throw decode_failed (λ c h. h.0)

  pub Triple-read_global_config :
      (I : Contents → Type 0) → Triple I read_global_config (λ cfg c. I c × InForce c cfg) I
  unfolding read_global_config
  Triple-read_global_config I = Triple-bind _ _ _ (Triple-get config_key) λ o.
      Triple-option o _ _
        (λ e. Triple-pure default_global_config (λ c h. (h.0, inl (sym h.1 ∙ e, refl))))
        λ v e. decoded I o v e
