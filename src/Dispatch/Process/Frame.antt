-- ===== src/Dispatch/Process/Frame.antt =====
-- The identity of the plugin touches the runtime state alone (dispatcher.go).
use openbao_plugin_secrets_s.Storage.{Contents, Env}
use openbao_plugin_secrets_s.Storage.Keeps.{Keeps, Keeps-throw, Keeps-bind, Keeps-if, Keeps-pure}
use openbao_plugin_secrets_s.Storage.Triples.{Ignores}
use openbao_plugin_secrets_s.RuntimeState.Frame.{is_runtime_key, Keeps-ensure_runtime_state}
use openbao_plugin_secrets_s.Naming.{is_all_space}
use openbao_plugin_secrets_s.Payload.{Codec}
use openbao_plugin_secrets_s.Providers.{Plugin}
use openbao_plugin_secrets_s.Dispatch.Process.{provider_runtime_identity, required_mount_uuid}

module _ ⦃env : Env⦄ ⦃codec : Codec⦄ {I : Contents → Type 0} (g : Ignores is_runtime_key I)
    (plugin : Plugin) where
  Keeps-required_mount_uuid : Keeps I (required_mount_uuid plugin)
  unfolding required_mount_uuid
  Keeps-required_mount_uuid =
      Keeps-if (is_all_space plugin.mount_uuid) _ _ (λ _. Keeps-throw _)
        λ _. Keeps-pure plugin.mount_uuid

  pub Keeps-provider_runtime_identity : Keeps I (provider_runtime_identity plugin)
  unfolding provider_runtime_identity
  Keeps-provider_runtime_identity =
      Keeps-bind _ _ Keeps-required_mount_uuid
        λ mount_uuid. Keeps-bind _ _ (Keeps-ensure_runtime_state g) λ epoch. Keeps-pure _
