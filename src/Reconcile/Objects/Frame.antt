-- ===== src/Reconcile/Objects/Frame.antt =====
-- What the reconciliation of an object keeps, where the providers keep it while they read
-- (internal/backend/path_reconcile.go).
use openbao_plugin_secrets_s.Prelude.{ℕ, not, Option, none, some, String, string_eq}
use openbao_plugin_secrets_s.Records.{AssociationRecord, VersionRecord}
use openbao_plugin_secrets_s.Storage.{Contents, Env}
use openbao_plugin_secrets_s.Storage.Keeps.{Keeps, Keeps-bind, Keeps-if, Keeps-pure, Keeps-option}
use openbao_plugin_secrets_s.Naming.{
  association_resolved_name_for_object, validate_destination_policy_for_object,
}
use openbao_plugin_secrets_s.Payload.{Codec, CanonicalPayload}
use openbao_plugin_secrets_s.Providers.{Provider, DestinationConfig, ReadStateRequest}
use openbao_plugin_secrets_s.Reconcile.{Verdict, ReconcileObjectResult, ReconcileLookupContext}
use openbao_plugin_secrets_s.Reconcile.Objects.{
  reconcile_association_object, with_payload, read_remote, prepare_reconcile_payload,
}

-- Every provider keeps the invariant while it reads the state of an object.
abbrev pub ReadsKeep : ⦃env : Env⦄ → (Contents → Type 0) → Provider → Type 0
ReadsKeep I p = (c : DestinationConfig) (q : ReadStateRequest) → Keeps I (p.read_state c q)

module _ ⦃env : Env⦄ {I : Contents → Type 0} ⦃codec : Codec⦄ where
  Keeps-with_payload :
      (p : Provider) (c : ReconcileLookupContext) (x : ReconcileObjectResult)
      (o : Option CanonicalPayload × Option Verdict)
      → ReadsKeep I p
      → Keeps I (with_payload p c x o)
  unfolding with_payload read_remote
  Keeps-with_payload p c x (payload, some v) k = Keeps-pure _
  Keeps-with_payload p c x (none, none) k = Keeps-pure x
  Keeps-with_payload p c x (some payload, none) k =
      Keeps-bind _ _ (k c.config _) λ answer. Keeps-pure _

  pub Keeps-reconcile_association_object :
      (r : AssociationRecord) (p : Provider) (c : ReconcileLookupContext) (version : ℕ)
      (v : VersionRecord) (object_id : String)
      → ReadsKeep I p
      → Keeps I (reconcile_association_object r p c version v object_id)
  unfolding reconcile_association_object
  Keeps-reconcile_association_object r p c version v object_id k =
      Keeps-option (association_resolved_name_for_object r object_id) _ _ (Keeps-pure _) λ name.
        Keeps-if (not (validate_destination_policy_for_object c.destination r name c.global)) _ _
          (λ _. Keeps-pure _)
          λ _. Keeps-with_payload p c _ (prepare_reconcile_payload p r v object_id) k
