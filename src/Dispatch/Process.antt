-- ===== src/Dispatch/Process.antt =====
-- dispatcher.go: a claimed operation from its checks to its outcome, and the loop over the due
-- operations. Logging and metrics are left out; the provider mutation timeout is the provider's.
pub mod Frame
use openbao_plugin_secrets_s.Prelude.{
  ℕ, suc, ◌+◌, ◌-◌, Bool, true, false, not, ◌&&◌, List, [], ◌∷◌, String, ◌==◌, if◌then◌else◌,
  string_eq, nat_eq, leb,
}
use Prim.Native.String.{◌++◌ as string_append}
use openbao_plugin_secrets_s.Records.{
  OperationType, upsert, delete, unknown_type, validation, OutboxRecord, VersionRecord,
}
use openbao_plugin_secrets_s.Storage.{Env, M, ◌>>=◌, ◌>>◌, pure, throw, option, now_utc, refused}
use openbao_plugin_secrets_s.Outbox.Listing.{list_due_outbox_ids}
use openbao_plugin_secrets_s.Outbox.Pruning.{prune_terminal_outbox_records}
use openbao_plugin_secrets_s.Config.{read_global_config}
use openbao_plugin_secrets_s.Naming.{
  validate_destination_policy_for_object, normalized_data_mapping, is_all_space,
}
use openbao_plugin_secrets_s.Payload.{Codec, CanonicalPayload}
use openbao_plugin_secrets_s.Associations.{destination_config}
use openbao_plugin_secrets_s.RuntimeState.{ensure_runtime_state}
use openbao_plugin_secrets_s.Dispatch.Claims.{
  claim_dispatchable_outbox_record, cancel_claimed_outbox_operation,
}
use openbao_plugin_secrets_s.Dispatch.Outcomes.{
  OperationFailure, mark_claimed_operation_failed, commit_claimed_upsert_success,
  commit_claimed_delete_success,
}
use openbao_plugin_secrets_s.Providers.{
  Plugin, RuntimeIdentity, Answer, accepted, rejected, provider_error_class,
}
use openbao_plugin_secrets_s.Dispatch.Targets.{
  DispatchTarget, Checked, passed, failed, load_upsert_context, load_delete_context,
  stale_upsert_for_current_version, prepare_provider_payload, resolved_name_for_operation,
}

module _ ⦃env : Env⦄ ⦃codec : Codec⦄ (plugin : Plugin) where
  required_mount_uuid : M String
  required_mount_uuid =
      if is_all_space plugin.mount_uuid
      then throw (refused "backend UUID is required")
      else pure plugin.mount_uuid

  pub provider_runtime_identity : M RuntimeIdentity
  provider_runtime_identity = do
    mount_uuid ← required_mount_uuid
    epoch ← ensure_runtime_state
    pure (record { mount_uuid = mount_uuid; restore_epoch = epoch })

  provider_upsert :
      DispatchTarget
      → List (String × String)
      → RuntimeIdentity
      → OutboxRecord
      → String
      → CanonicalPayload
      → M (Answer String)
  provider_upsert t config runtime r resolved_name payload = t.provider.upsert (record {
    runtime = runtime;
    destination_config = config;
    provider_config = t.association.provider_config;
    provider_identity = t.association.provider_identity;
    resolved_name = resolved_name;
    payload = payload;
    idempotency_key = r.idempotency_key;
    source_path = r.path;
    source_version = r.version;
    association_id = r.association_id;
    object_id = r.object_id;
  })

  provider_delete :
      DispatchTarget
      → List (String × String)
      → RuntimeIdentity
      → OutboxRecord
      → String
      → M (Answer String)
  provider_delete t config runtime r resolved_name = t.provider.delete (record {
    runtime = runtime;
    destination_config = config;
    provider_config = t.association.provider_config;
    provider_identity = t.association.provider_identity;
    resolved_name = resolved_name;
    idempotency_key = r.idempotency_key;
    data_map = normalized_data_mapping t.association.data_mapping == "source-keys";
    source_path = r.path;
    source_version = r.version;
    association_id = r.association_id;
    object_id = r.object_id;
  })

  fail : OutboxRecord → ℕ → OperationFailure → M (Unit {0})
  fail r now f = mark_claimed_operation_failed r f now

  abbrev passing : {A : Type 0} → Checked A → OutboxRecord → ℕ → (A → M (Unit {0})) → M (Unit {0})
  passing (passed a) r now f = f a
  passing (failed e) r now f = fail r now e

  finish_upsert : OutboxRecord → String → CanonicalPayload → ℕ → Answer String → M (Unit {0})
  finish_upsert r name payload now (accepted remote_version) =
      commit_claimed_upsert_success r name payload remote_version now
  finish_upsert r name payload now (rejected e) = fail r now (record {
    class = provider_error_class e;
    message = "provider upsert failed";
    resolved_name = name;
    payload_sha256 = payload.sha256;
  })

  -- From the destination policy on.
  run_upsert : OutboxRecord → DispatchTarget → CanonicalPayload → ℕ → String → M (Unit {0})
  run_upsert r t payload now name = do
    cfg ← read_global_config
    if validate_destination_policy_for_object t.destination t.association name cfg
        then (do
          config ← destination_config t.destination
          runtime ← provider_runtime_identity
          outcome ← provider_upsert t config runtime r name payload
          finish_upsert r name payload now outcome)
        else fail r now (record {
          class = validation;
          message = "destination policy";
          resolved_name = name;
          payload_sha256 = payload.sha256;
        })

  upsert_target : OutboxRecord → ℕ → VersionRecord × DispatchTarget → M (Unit {0})
  upsert_target r now (v, t) = passing (prepare_provider_payload v t r.object_id) r now λ payload.
      passing (resolved_name_for_operation t.association r.object_id) r now
        (run_upsert r t payload now)

  upsert_current : OutboxRecord → ℕ → M (Unit {0})
  upsert_current r now = do
    checked ← load_upsert_context plugin r
    passing checked r now (upsert_target r now)

  pub process_upsert : OutboxRecord → ℕ → M (Unit {0})
  process_upsert r now = do
    stale ← stale_upsert_for_current_version plugin r
    if stale then cancel_claimed_outbox_operation r else upsert_current r now

  finish_delete : OutboxRecord → String → ℕ → Answer String → M (Unit {0})
  finish_delete r name now (accepted remote_version) =
      commit_claimed_delete_success r name remote_version now
  finish_delete r name now (rejected e) = fail r now (record {
    class = provider_error_class e;
    message = "provider delete failed";
    resolved_name = name;
    payload_sha256 = "";
  })

  run_delete : OutboxRecord → DispatchTarget → ℕ → String → M (Unit {0})
  run_delete r t now name = do
    cfg ← read_global_config
    if validate_destination_policy_for_object t.destination t.association name cfg
        then (do
          config ← destination_config t.destination
          runtime ← provider_runtime_identity
          outcome ← provider_delete t config runtime r name
          finish_delete r name now outcome)
        else fail r now (record {
          class = validation;
          message = "destination policy";
          resolved_name = name;
          payload_sha256 = "";
        })

  pub process_delete : OutboxRecord → ℕ → M (Unit {0})
  process_delete r now = do
    checked ← load_delete_context plugin r
    passing checked r now λ t.
        passing (resolved_name_for_operation t.association r.object_id) r now (run_delete r t now)

  by_type : OperationType → OutboxRecord → ℕ → M (Unit {0})
  by_type upsert r now = process_upsert r now
  by_type delete r now = process_delete r now
  by_type (unknown_type _) r now = pure tt

  pub process_outbox_record : OutboxRecord → ℕ → M (Unit {0})
  process_outbox_record r now = by_type r.type r now

  outbox_claim_owner : M String
  outbox_claim_owner = do
    mount_uuid ← required_mount_uuid
    _ ← ensure_runtime_state
    pure (string_append mount_uuid (string_append "/" plugin.worker_id))

  -- One id of the batch: whether it was processed.
  process_id : String → ℕ → String → M Bool
  process_id owner now id = do
    claimed ← claim_dispatchable_outbox_record id owner now
    option claimed (pure false) λ r. do process_outbox_record r now; pure true

  -- `max_operations` is 0 for no limit. The clock advances from the time of the call.
  process_ids : List String → String → ℕ → ℕ → ℕ → ℕ → M ℕ
  process_ids [] owner now started max_operations processed = pure processed
  process_ids (id ∷ ids) owner now started max_operations processed =
      let others = λ (n : ℕ). process_ids ids owner now started max_operations n in
      do
        time ← now_utc
        done ← process_id owner (now + (time - started)) id
        let count = if done then suc processed else processed
        if done && not (max_operations == 0) && leb max_operations count
            then pure count
            else others count

  pub process_due_outbox_limit : ℕ → ℕ → M ℕ
  process_due_outbox_limit now max_operations = do
    started ← now_utc
    owner ← outbox_claim_owner
    ids ← list_due_outbox_ids now
    processed ← process_ids ids owner now started max_operations 0
    time ← now_utc
    prune_terminal_outbox_records (now + (time - started))
    pure processed
