-- ===== src/Reconcile/Frame.antt =====
-- What the lookups of a reconciliation and its status writes keep (internal/backend/path_reconcile.go).
use openbao_plugin_secrets_s.Prelude.{not, List, Option, none, some, string_eq, ◌≡◌}
use openbao_plugin_secrets_s.Records.{AssociationRecord, DestinationRecord, GlobalConfig, Stamp}
use openbao_plugin_secrets_s.Storage.{Contents, Env, M, pure}
use openbao_plugin_secrets_s.Storage.Keeps.{
  Keeps, Keeps-bind, Keeps-if, Keeps-pure, Keeps-option, Keeps-catch, Keeps-found,
}
use openbao_plugin_secrets_s.Storage.Triples.{Ignores}
use openbao_plugin_secrets_s.Status.Frame.{is_status_key, Keeps-get_status, Keeps-put_status}
use openbao_plugin_secrets_s.RuntimeState.Frame.{is_runtime_key}
use openbao_plugin_secrets_s.Config.Frame.{Keeps-read_global_config}
use openbao_plugin_secrets_s.Payload.{Codec}
use openbao_plugin_secrets_s.Associations.Frame.{Keeps-get_destination, Keeps-destination_config}
use openbao_plugin_secrets_s.Providers.{Provider, Plugin}
use openbao_plugin_secrets_s.Dispatch.Process.Frame.{Keeps-provider_runtime_identity}
use openbao_plugin_secrets_s.Reconcile.{
  Verdict, Looked, found, failed, ReconcileObjectResult, ReconcileLookupContext, or_failure,
  lookup_rest, lookup_destination, load_reconcile_lookup_context, put_reconcile_status,
}

module _ ⦃env : Env⦄ {I : Contents → Type 0} where
  pub Keeps-put_reconcile_status :
      Ignores is_status_key I
      → (x : ReconcileObjectResult) (now : Stamp) → Keeps I (put_reconcile_status x now)
  unfolding put_reconcile_status
  Keeps-put_reconcile_status g x now =
      Keeps-bind _ _ (Keeps-get_status _ _ _) λ existing. Keeps-put_status g _

  Keeps-or_failure :
      {A B : Type 0} (m : M A) (v : Verdict) (k : A → M (Looked B))
      → Keeps I m
      → ((a : A) → Keeps I (k a))
      → Keeps I (or_failure m v k)
  unfolding or_failure
  Keeps-or_failure m v k km kk =
      Keeps-bind _ _ (Keeps-catch _ _ (Keeps-bind _ _ km λ a. Keeps-pure _) λ _. Keeps-pure none)
        λ o. Keeps-option o _ _ (Keeps-pure _) kk

  module _ ⦃codec : Codec⦄ where
    module _ (g : Ignores is_runtime_key I) (plugin : Plugin) where
      Keeps-lookup_rest :
          (cfg : Option GlobalConfig) (d : DestinationRecord) → Keeps I (lookup_rest plugin cfg d)
      unfolding lookup_rest
      Keeps-lookup_rest cfg d =
          Keeps-or_failure _ _ _ (Keeps-option cfg _ _ Keeps-read_global_config Keeps-pure)
            λ global. Keeps-or_failure _ _ _ (Keeps-destination_config d) λ config.
              Keeps-or_failure _ _ _ (Keeps-provider_runtime_identity g plugin)
                λ runtime. Keeps-pure _

      Keeps-lookup_destination :
          (r : AssociationRecord) (cfg : Option GlobalConfig)
          → Keeps I (lookup_destination plugin r cfg)
      unfolding lookup_destination
      Keeps-lookup_destination r cfg =
          Keeps-or_failure _ _ _ (Keeps-get_destination r.destination_type r.destination_name)
            λ destination.
              Keeps-option destination _ _ (Keeps-pure _)
                λ d. Keeps-if d.disabled _ _ (λ _. Keeps-pure _) λ _. Keeps-lookup_rest cfg d

      use_looked :
          (looked : Looked ReconcileLookupContext)
          (use_context : ReconcileLookupContext → M (List ReconcileObjectResult))
          (on_failure : Verdict → List ReconcileObjectResult)
          → ((c : ReconcileLookupContext) → Keeps I (use_context c))
          → Keeps I (elim looked [ found c ↦ use_context c | failed v ↦ pure (on_failure v) ])
      use_looked (found c) use_context on_failure k = k c
      use_looked (failed v) use_context on_failure k = Keeps-pure _

      pub Keeps-load_reconcile_lookup_context :
          (r : AssociationRecord) (cfg : Option GlobalConfig)
          (use_context : Provider → ReconcileLookupContext → M (List ReconcileObjectResult))
          (on_failure : Verdict → List ReconcileObjectResult)
          → ((p : Provider)
              → plugin.registry r.destination_type ≡ some p
              → (c : ReconcileLookupContext) → Keeps I (use_context p c))
          → Keeps I (load_reconcile_lookup_context plugin r cfg use_context on_failure)
      unfolding load_reconcile_lookup_context
      Keeps-load_reconcile_lookup_context r cfg use_context on_failure k =
          Keeps-if (not r.enabled) _ _ (λ _. Keeps-pure _)
            λ _. Keeps-found (plugin.registry r.destination_type) _ _ (Keeps-pure _) λ p registered.
              Keeps-bind _ _ (Keeps-lookup_destination r cfg)
                λ looked. use_looked looked (use_context p) on_failure (k p registered)
