-- ===== src/Reconcile/Objects.antt =====
-- internal/backend/path_reconcile.go: the reconciliation of the objects of an association, and of a path.
pub mod Frame
use openbao_plugin_secrets_s.Prelude.{
  ℕ, Bool, true, false, not, ◌&&◌, ◌||◌, List, [], ◌∷◌, ◌++◌, Option, none, some, String, ◌==◌,
  if◌then◌else◌, string_eq, nat_eq,
}
use openbao_plugin_secrets_s.Records.{
  Stamp, format_time, AssociationRecord, MetadataRecord, VersionRecord, GlobalConfig, SyncState,
  unknown, internal_error, validation_error, ErrorClass, validation, internal, capacity,
  blank_class,
}
use openbao_plugin_secrets_s.Storage.{refused, Env, M, ◌>>=◌, ◌>>◌, pure, throw, option, now_utc}
use openbao_plugin_secrets_s.Source.{get_metadata, get_version}
use openbao_plugin_secrets_s.Naming.{
  normalize_source_path, association_resolved_name_for_object,
  validate_destination_policy_for_object, normalized_data_mapping,
}
use openbao_plugin_secrets_s.Payload.{
  Codec, CanonicalPayload, association_object_ids, build_canonical_payload_for_object,
}
use openbao_plugin_secrets_s.Associations.{list_associations_for_path}
use openbao_plugin_secrets_s.Enqueue.{unavailable_version}
use openbao_plugin_secrets_s.Providers.{
  Provider, Plugin, RuntimeIdentity, ReadStateRequest, RemoteState, Answer, accepted, rejected,
  provider_error_class,
}
use openbao_plugin_secrets_s.Dispatch.Outcomes.{sync_state_for_failure_class}
use openbao_plugin_secrets_s.Dispatch.Targets.{enforce_provider_payload_limit}
use openbao_plugin_secrets_s.Reconcile.{
  Verdict, verdict, ReconcileObjectResult, ReconcileLookupContext, reconcile_state_for_remote_state,
  new_reconcile_object_result, failure_results, put_reconcile_status, load_reconcile_lookup_context,
}

-- `prepareReconcilePayload`: a payload, with the verdict if it does not fit.
module _ ⦃env : Env⦄ ⦃codec : Codec⦄ where
  pub prepare_reconcile_payload :
      Provider
      → AssociationRecord
      → VersionRecord
      → String
      → Option CanonicalPayload × Option Verdict
  prepare_reconcile_payload p r v object_id =
      option (build_canonical_payload_for_object r v.payload object_id)
        (
          none,
          some (
              verdict (sync_state_for_failure_class validation) validation
                "source payload encoding failed"),
        )
        λ payload. (
          some payload,
          if enforce_provider_payload_limit p.capabilities.max_payload_bytes payload
              then none
              else some (
                  verdict (sync_state_for_failure_class capacity) capacity
                    "payload exceeds provider max_payload_bytes"),
        )

provider_read_state_request :
    AssociationRecord → RuntimeIdentity → ℕ → CanonicalPayload → String → String → ReadStateRequest
provider_read_state_request r runtime version payload object_id resolved_name = record {
  runtime = runtime;
  association = record { config = r.provider_config; identity = r.provider_identity };
  resolved_name = resolved_name;
  payload_sha256 = payload.sha256;
  data_map = normalized_data_mapping r.data_mapping == "source-keys";
  source_path = r.path;
  source_version = version;
  association_id = r.id;
  object_id = object_id;
}

-- What the answer of the provider makes of a result.
unfoldable pub with_answer :
    ReconcileObjectResult → ℕ → String → Answer (Option RemoteState) → ReconcileObjectResult
with_answer x version sha256 (rejected e) = record x {
  verdict =
      verdict (sync_state_for_failure_class (provider_error_class e)) (provider_error_class e)
        "provider read-state failed";
}
with_answer x version sha256 (accepted none) = record x {
  verdict = verdict internal_error internal "provider returned nil remote state";
}
with_answer x version sha256 (accepted (some remote)) = record x {
  remote_state = some remote;
  verdict = reconcile_state_for_remote_state version sha256 remote;
}

abbrev digest_of : Option CanonicalPayload → String
digest_of none = ""
digest_of (some p) = p.sha256

module _ ⦃env : Env⦄ ⦃codec : Codec⦄ where
  read_remote :
      Provider
      → ReconcileLookupContext
      → ReconcileObjectResult
      → CanonicalPayload
      → M ReconcileObjectResult
  read_remote p c x payload = do
    answer ← p.read_state c.config (
        provider_read_state_request x.association c.runtime x.version payload x.object_id
          x.resolved_name)
    pure (with_answer x x.version payload.sha256 answer)

  with_payload :
      Provider
      → ReconcileLookupContext
      → ReconcileObjectResult
      → Option CanonicalPayload × Option Verdict
      → M ReconcileObjectResult
  with_payload p c x (payload, some v) =
      pure (record x { payload_sha256 = digest_of payload; verdict = v })
  with_payload p c x (none, none) = pure x
  with_payload p c x (some payload, none) =
      read_remote p c (record x { payload_sha256 = payload.sha256 }) payload

  pub reconcile_association_object :
      AssociationRecord
      → Provider
      → ReconcileLookupContext
      → ℕ
      → VersionRecord
      → String
      → M ReconcileObjectResult
  reconcile_association_object r p c version v object_id =
      option (association_resolved_name_for_object r object_id)
        (pure (
          new_reconcile_object_result r version object_id ""
            (verdict validation_error validation "object name")))
        λ name.
          let x =
            new_reconcile_object_result r version object_id name (verdict unknown blank_class "") in
          if not (validate_destination_policy_for_object c.destination r name c.global)
          then pure
              (record x { verdict = verdict validation_error validation "destination policy" })
          else with_payload p c x (prepare_reconcile_payload p r v object_id)

  reconcile_objects :
      AssociationRecord
      → ℕ
      → VersionRecord
      → List String
      → Provider
      → ReconcileLookupContext
      → M (List ReconcileObjectResult)
  reconcile_objects r version v [] p c = pure []
  reconcile_objects r version v (id ∷ ids) p c = do
    x ← reconcile_association_object r p c version v id
    rest ← reconcile_objects r version v ids p c
    pure (x ∷ rest)

  module _ (plugin : Plugin) where
    pub reconcile_association :
        AssociationRecord → ℕ → VersionRecord → M (List ReconcileObjectResult)
    reconcile_association r version v =
        option (association_object_ids r v.payload)
          (pure (
            new_reconcile_object_result r version "" ""
              (verdict validation_error validation "object ids")
            ∷ []))
          λ ids.
            load_reconcile_lookup_context plugin r none (reconcile_objects r version v ids)
              (λ failure. failure_results failure r version ids)

    apply_results : Bool → List ReconcileObjectResult → Stamp → M (Unit {0})
    apply_results apply [] now = pure tt
    apply_results apply (x ∷ xs) now = do
      if apply then put_reconcile_status x now else pure tt
      apply_results apply xs now

    reconcile_associations :
        Bool → ℕ → VersionRecord → Stamp → List AssociationRecord → M (List ReconcileObjectResult)
    reconcile_associations apply version v now [] = pure []
    reconcile_associations apply version v now (r ∷ rs) = do
      results ← reconcile_association r version v
      apply_results apply results now
      rest ← reconcile_associations apply version v now rs
      pure (results ++ rest)

    -- `apply` tells a reconciliation from its plan.
    pub reconcile_path : String → Bool → M (List ReconcileObjectResult)
    reconcile_path raw_path apply =
        option (normalize_source_path raw_path) (throw (refused "path")) λ path. do
          metadata ← get_metadata path
          option metadata (throw (refused "source path does not exist")) λ m.
              if m.current_version == 0 then throw (refused "source path does not exist") else do
                version ← get_version path m.current_version
                option version (throw (refused "current source version is unavailable")) λ v.
                    if unavailable_version v
                    then throw (refused "current source version is unavailable")
                    else do
                      associations ← list_associations_for_path path
                      time ← now_utc
                      reconcile_associations apply m.current_version v (format_time time)
                          associations
