-- ===== src/Reconcile.antt =====
-- internal/backend/path_reconcile.go: the comparison of the state that a provider reports with the desired
-- one, and the status that it leaves. Telemetry and responses are left out.
pub mod Objects
pub mod Frame
pub mod Verdicts
use openbao_plugin_secrets_s.Prelude.{
  ℕ, Bool, true, false, not, ◌&&◌, ◌||◌, List, [], ◌∷◌, ◌++◌, Option, none, some, String, ◌==◌,
  ◌!=◌, if◌then◌else◌, string_eq, nat_eq, ltb, ℤ, pos, negsuc, at_least,
}
use Prim.Native.String.{◌++◌ as string_append}
use openbao_plugin_secrets_s.Records.{
  Stamp, blank, is_blank, format_time, AssociationRecord, DestinationRecord, MetadataRecord,
  VersionRecord, StatusRecord, GlobalConfig, SyncState, unknown, no_association, synced, drifted,
  remote_missing, remote_ownership_lost, disabled_sync, validation_error, internal_error,
  ErrorClass, validation, internal, ownership, drift, capacity, blank_class, other_class,
}
use openbao_plugin_secrets_s.Storage.{
  refused, Env, M, ◌>>=◌, ◌>>◌, pure, throw, catch, option, now_utc,
}
use openbao_plugin_secrets_s.Status.{get_status, put_status}
use openbao_plugin_secrets_s.Config.{read_global_config}
use openbao_plugin_secrets_s.Source.{get_metadata, get_version}
use openbao_plugin_secrets_s.Naming.{
  secret_path, normalize_source_path, association_resolved_name_for_object,
  validate_destination_policy_for_object, normalized_data_mapping,
}
use openbao_plugin_secrets_s.Payload.{
  Codec, CanonicalPayload, association_object_ids, build_canonical_payload_for_object,
}
use openbao_plugin_secrets_s.Associations.{
  get_destination, destination_config, list_associations_for_path,
}
use openbao_plugin_secrets_s.Enqueue.{unavailable_version}
use openbao_plugin_secrets_s.Providers.{
  Provider, Plugin, DestinationConfig, RuntimeIdentity, ReadStateRequest, RemoteState, Answer,
  accepted, rejected, provider_error_class,
}
use openbao_plugin_secrets_s.Dispatch.Outcomes.{sync_state_for_failure_class}
use openbao_plugin_secrets_s.Dispatch.Targets.{enforce_provider_payload_limit}
use openbao_plugin_secrets_s.Dispatch.Process.{provider_runtime_identity}

-- A state with the class and the text of the error, of which the class may be blank.
pub record Verdict : Type 0 where
  pub state : SyncState
  pub error_class : ErrorClass
  pub message : String

pub record ReconcileObjectResult : Type 0 where
  pub association : AssociationRecord
  pub version : ℕ
  pub object_id : String
  pub resolved_name : String
  pub payload_sha256 : String
  pub remote_state : Option RemoteState
  pub verdict : Verdict

pub record ReconcileLookupContext : Type 0 where
  pub destination : DestinationRecord
  pub config : DestinationConfig
  pub runtime : RuntimeIdentity
  pub global : GlobalConfig

-- A value, or the verdict that stands in its place.
pub data Looked (A : Type 0) : Type 0 where
  found : A → Looked A
  failed : Verdict → Looked A

abbrev pub verdict : SyncState → ErrorClass → String → Verdict
verdict s c m = record { state = s; error_class = c; message = m }

abbrev pub differs_from : ℕ → ℤ → Bool
differs_from version (pos n) = n != version
differs_from version (negsuc _) = true

-- `version` is the desired version, and `sha256` the digest of the desired payload.
unfoldable pub reconcile_state_for_remote_state : ℕ → String → RemoteState → Verdict
reconcile_state_for_remote_state version sha256 remote =
    if not remote.exists
    then verdict remote_missing blank_class "remote object is missing"
    else if remote.ownership_known && not remote.owned
    then verdict remote_ownership_lost ownership "remote object is not owned by this association"
    else if at_least 1 remote.source_version && differs_from version remote.source_version
    then verdict drifted drift "remote source version differs from desired version"
    else if remote.payload_sha256 != "" && remote.payload_sha256 != sha256
    then verdict drifted drift "remote payload hash differs from desired payload hash"
    else if remote.payload_sha256 == sha256
    then verdict synced blank_class ""
    else verdict unknown blank_class "remote state lacks comparable payload metadata"

unfoldable pub new_reconcile_object_result :
    AssociationRecord → ℕ → String → String → Verdict → ReconcileObjectResult
new_reconcile_object_result r version object_id resolved_name v =
    let id = if object_id == "" then secret_path else object_id in
    record {
      association = r;
      version = version;
      object_id = id;
      resolved_name =
          if resolved_name == ""
          then option (association_resolved_name_for_object r id) "" (λ n. n)
          else resolved_name;
      payload_sha256 = "";
      remote_state = none;
      verdict = v;
    }

unfoldable pub failure_result : Verdict → AssociationRecord → ℕ → String → ReconcileObjectResult
unfolding new_reconcile_object_result
failure_result v r version object_id =
    new_reconcile_object_result r version object_id
      (option (association_resolved_name_for_object r object_id) "" (λ n. n)) v

unfoldable pub failure_results :
    Verdict → AssociationRecord → ℕ → List String → List ReconcileObjectResult
unfolding failure_result
failure_results v r version [] = []
failure_results v r version (id ∷ ids) =
    failure_result v r version id ∷ failure_results v r version ids

abbrev is_synced : SyncState → Bool
is_synced synced = true
is_synced _ = false

abbrev pub is_drifted : SyncState → Bool
is_drifted drifted = true
is_drifted _ = false

abbrev first_unsynced : List ReconcileObjectResult → SyncState
first_unsynced [] = synced
first_unsynced (x ∷ xs) =
    let later = first_unsynced xs in if is_synced x.verdict.state then later else x.verdict.state

unfoldable pub reconcile_summary_state : List ReconcileObjectResult → SyncState
reconcile_summary_state [] = no_association
reconcile_summary_state (x ∷ xs) = first_unsynced (x ∷ xs)

abbrev is_blank_class : ErrorClass → Bool
is_blank_class blank_class = true
is_blank_class (other_class c) = c == ""
is_blank_class _ = false

-- `existing` gives the last operation and the last success.
unfoldable pub reconcile_status : ReconcileObjectResult → Option StatusRecord → Stamp → StatusRecord
reconcile_status x existing now = record {
  path = x.association.path;
  version = x.version;
  association_id = x.association.id;
  object_id = x.object_id;
  destination_ref = x.association.destination_ref;
  resolved_name = x.resolved_name;
  state = x.verdict.state;
  payload_sha256 = x.payload_sha256;
  remote_version = option x.remote_state "" (λ r. r.remote_version);
  verification = option x.remote_state "" (λ r. r.verification);
  last_operation_id = option existing "" (λ s. s.last_operation_id);
  last_success_time = option existing blank (λ s. s.last_success_time);
  last_reconcile_time = now;
  last_drift_detected_time = if is_drifted x.verdict.state then now else blank;
  last_repair_time = blank;
  repair_count = 0;
  last_error_class = x.verdict.error_class;
  last_error =
      if is_blank_class x.verdict.error_class
      then ""
      else string_append "reconcile failed: " x.verdict.message;
  updated_time = now;
}

module _ ⦃env : Env⦄ where
  pub put_reconcile_status : ReconcileObjectResult → Stamp → M (Unit {0})
  put_reconcile_status x now = do
    existing ← get_status x.association.path x.association.id x.object_id
    put_status (reconcile_status x existing now)

  -- `if err != nil { return failure }`, where the error is not passed on.
  or_failure : {A B : Type 0} → M A → Verdict → (A → M (Looked B)) → M (Looked B)
  or_failure m v k = do
    o ← catch (do a ← m; pure (some a)) (λ _. pure none)
    option o (pure (failed v)) k

  module _ ⦃codec : Codec⦄ (plugin : Plugin) where
    -- The parts of the lookup from the configuration on; `cfg` is given or read.
    lookup_rest : Option GlobalConfig → DestinationRecord → M (Looked ReconcileLookupContext)
    lookup_rest cfg d =
        or_failure (option cfg read_global_config pure)
          (verdict internal_error internal "config lookup failed")
          λ global.
            or_failure (destination_config d)
              (verdict internal_error internal "destination config resolution failed")
              λ config.
                or_failure (provider_runtime_identity plugin)
                  (verdict internal_error internal "runtime identity resolution failed")
                  λ runtime. pure (
                    found (record {
                      destination = d;
                      config = record { name = d.name; config = config };
                      runtime = runtime;
                      global = global;
                    }))

    -- The destination, if it is there and enabled.
    lookup_destination : AssociationRecord → Option GlobalConfig → M (Looked ReconcileLookupContext)
    lookup_destination r cfg =
        or_failure (get_destination r.destination_type r.destination_name)
          (verdict internal_error internal "destination lookup failed")
          λ destination.
            option destination
              (pure (failed (verdict validation_error validation "destination is missing")))
              λ d.
                if d.disabled
                then pure (failed (verdict disabled_sync blank_class "destination is disabled"))
                else lookup_rest cfg d

    pub load_reconcile_lookup_context :
        AssociationRecord
        → Option GlobalConfig
        → (Provider → ReconcileLookupContext → M (List ReconcileObjectResult))
        → (Verdict → List ReconcileObjectResult)
        → M (List ReconcileObjectResult)
    load_reconcile_lookup_context r cfg use_context on_failure =
        if not r.enabled
        then pure (on_failure (verdict disabled_sync blank_class "association is disabled"))
        else option (plugin.registry r.destination_type)
            (pure (
              on_failure
                (verdict validation_error validation "destination provider is unsupported")))
            λ p. do
              looked ← lookup_destination r cfg
              elim looked [ found c ↦ use_context p c | failed v ↦ pure (on_failure v) ]
