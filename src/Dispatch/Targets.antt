-- ===== src/Dispatch/Targets.antt =====
-- dispatcher.go: what an operation is checked against before the provider is called.
use openbao_plugin_secrets_s.Prelude.{
  ℕ, Bool, true, false, not, ◌&&◌, ◌||◌, Option, none, some, String, ◌==◌, if◌then◌else◌, string_eq,
  nat_eq, ltb, leb,
}
use Prim.Native.String.{len}
use openbao_plugin_secrets_s.Records.{
  is_blank, ErrorClass, validation, internal, capacity, OutboxRecord, VersionRecord,
  AssociationRecord, DestinationRecord, is_upsert,
}
use openbao_plugin_secrets_s.Storage.{Env, M, ◌>>=◌, pure, option}
use openbao_plugin_secrets_s.Config.{read_global_config, validate_association_activation}
use openbao_plugin_secrets_s.Naming.{association_resolved_name_for_object, normalized_delete_mode}
use openbao_plugin_secrets_s.Payload.{Codec, CanonicalPayload, build_canonical_payload_for_object}
use openbao_plugin_secrets_s.Providers.{Provider, Plugin}
use openbao_plugin_secrets_s.Associations.{get_association, get_destination}
use openbao_plugin_secrets_s.Source.{get_version, get_metadata}
use openbao_plugin_secrets_s.Dispatch.Outcomes.{OperationFailure}

module _ ⦃env : Env⦄ where
  pub record DispatchTarget : Type 0 where
    pub association : AssociationRecord
    pub destination : DestinationRecord
    pub provider : Provider

-- A value, or the failure that ends the operation.
pub data Checked (A : Type 0) : Type 0 where
  passed : A → Checked A
  failed : OperationFailure → Checked A

abbrev pub failure : {A : Type 0} → ErrorClass → String → String → Checked A
failure c m n = failed (record { class = c; message = m; resolved_name = n; payload_sha256 = "" })

abbrev is_available : Option VersionRecord → Bool
is_available none = false
is_available (some v) = not v.destroyed && is_blank v.deletion_time

unfoldable pub require_delete_dispatch_mode : AssociationRecord → Bool
require_delete_dispatch_mode r = normalized_delete_mode r.delete_mode == "delete"

unfoldable pub enforce_provider_payload_limit : ℕ → CanonicalPayload → Bool
enforce_provider_payload_limit max_payload_bytes payload =
    max_payload_bytes == 0 || leb (len payload.bytes) max_payload_bytes

module _ ⦃env : Env⦄ (plugin : Plugin) where
  source_eligible_for_dispatch : AssociationRecord → M Bool
  source_eligible_for_dispatch r = do
    cfg ← read_global_config
    metadata ← get_metadata r.path
    pure (validate_association_activation r metadata cfg)

  check_eligibility : AssociationRecord → DestinationRecord → Provider → M (Checked DispatchTarget)
  check_eligibility r d p = do
    eligible ← source_eligible_for_dispatch r
    pure (
        if eligible
        then passed (record { association = r; destination = d; provider = p })
        else failure validation "source path is not eligible for sync" r.resolved_name)

  check_provider : AssociationRecord → DestinationRecord → M (Checked DispatchTarget)
  check_provider r d =
      option (plugin.registry d.type)
        (pure (failure validation "destination provider is unsupported" r.resolved_name))
        λ p.
          if d.disabled || not r.enabled
          then pure (failure validation "association or destination is disabled" r.resolved_name)
          else check_eligibility r d p

  check_destination : AssociationRecord → M (Checked DispatchTarget)
  check_destination r = do
    d ← get_destination r.destination_type r.destination_name
    option d (pure (failure internal "destination is missing" r.resolved_name)) (check_provider r)

  -- `preflight` is the test of the delete mode, or none for an upsert.
  pub load_dispatch_target_context :
      OutboxRecord → (AssociationRecord → Bool) → M (Checked DispatchTarget)
  load_dispatch_target_context r preflight = do
    association ← get_association r.path r.association_id
    option association (pure (failure internal "association is missing" "")) λ a.
        if preflight a
        then check_destination a
        else pure (
            failure validation "association delete_mode does not permit remote delete"
              a.resolved_name)

  abbrev with_version :
      VersionRecord → Checked DispatchTarget → Checked (VersionRecord × DispatchTarget)
  with_version v (passed t) = passed (v, t)
  with_version v (failed f) = failed f

  load_for_version : OutboxRecord → VersionRecord → M (Checked (VersionRecord × DispatchTarget))
  load_for_version r v =
      if v.destroyed || not (is_blank v.deletion_time)
      then pure (failure internal "source version is unavailable" "")
      else do target ← load_dispatch_target_context r (λ _. true); pure (with_version v target)

  pub load_upsert_context : OutboxRecord → M (Checked (VersionRecord × DispatchTarget))
  load_upsert_context r = do
    version ← get_version r.path r.version
    option version (pure (failure internal "source version is unavailable" "")) (load_for_version r)

  pub load_delete_context : OutboxRecord → M (Checked DispatchTarget)
  load_delete_context r = do
    version ← get_version r.path r.version
    if is_available version
        then pure (failure validation "source version is not deleted" "")
        else load_dispatch_target_context r require_delete_dispatch_mode

  pub stale_upsert_for_current_version : OutboxRecord → M Bool
  stale_upsert_for_current_version r = if not (is_upsert r.type) then pure false else do
    metadata ← get_metadata r.path
    pure (option metadata false λ m. ltb r.version m.current_version)

module _ ⦃env : Env⦄ ⦃codec : Codec⦄ where
  pub prepare_provider_payload : VersionRecord → DispatchTarget → String → Checked CanonicalPayload
  prepare_provider_payload v t object_id =
      option (build_canonical_payload_for_object t.association v.payload object_id)
        (failure validation "source payload encoding failed" t.association.resolved_name)
        λ p.
          if enforce_provider_payload_limit t.provider.capabilities.max_payload_bytes p
          then passed p
          else failed (record {
            class = capacity;
            message = "payload exceeds provider max_payload_bytes";
            resolved_name = t.association.resolved_name;
            payload_sha256 = p.sha256;
          })

pub resolved_name_for_operation : AssociationRecord → String → Checked String
resolved_name_for_operation r object_id =
    option (association_resolved_name_for_object r object_id) (failure validation "object name" "")
      passed
