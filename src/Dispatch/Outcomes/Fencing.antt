-- ===== src/Dispatch/Outcomes/Fencing.antt =====
-- The outcomes that the worker of a lost claim reports (dispatcher.go).
use openbao_plugin_secrets_s.Prelude.{ℕ, ◌≡◌, String}
use openbao_plugin_secrets_s.Records.{OutboxRecord}
use openbao_plugin_secrets_s.Storage.{Contents, Env, ◌>>◌}
use openbao_plugin_secrets_s.Storage.Keeps.{Keeps}
use openbao_plugin_secrets_s.Outbox.Records.{delete_outbox}
use openbao_plugin_secrets_s.Status.{put_status}
use openbao_plugin_secrets_s.Payload.{CanonicalPayload}
use openbao_plugin_secrets_s.Dispatch.Claims.{cancel_claimed_outbox_operation}
use openbao_plugin_secrets_s.Dispatch.Claims.Fencing.{
  NotHeld, Keeps-discard_not_held, cancel_claimed-not_held,
}
use openbao_plugin_secrets_s.Dispatch.Outcomes.{
  OperationFailure, mark_claimed_operation_failed, mark_operation_failed,
  commit_claimed_upsert_success, commit_claimed_delete_success, mark_upsert_success_status,
  finished_record, deleted_status,
}

module _ ⦃env : Env⦄ where
  -- A worker that finishes an operation whose stored claim is not its own, or which is gone, leaves
  -- the storage as it found it, whether it reports the success of a write or of a delete, a failure,
  -- or a cancellation.
  pub lost_claim-Keeps :
      (r : OutboxRecord) (c : Contents) (name version : String) (payload : CanonicalPayload)
      (failure : OperationFailure) (now : ℕ)
      → NotHeld r c
      → Keeps (λ d. d ≡ c) (commit_claimed_upsert_success r name payload version now)
        × Keeps (λ d. d ≡ c) (commit_claimed_delete_success r name version now)
        × Keeps (λ d. d ≡ c) (mark_claimed_operation_failed r failure now)
        × Keeps (λ d. d ≡ c) (cancel_claimed_outbox_operation r)
  unfolding commit_claimed_upsert_success commit_claimed_delete_success
      mark_claimed_operation_failed
  lost_claim-Keeps r c name version payload failure now lost = (
    Keeps-discard_not_held r c lost do
      mark_upsert_success_status (finished_record r now) name payload version now
      delete_outbox (finished_record r now),
    Keeps-discard_not_held r c lost do
      put_status (deleted_status (finished_record r now) name version now)
      delete_outbox (finished_record r now),
    Keeps-discard_not_held r c lost (mark_operation_failed r failure now),
    cancel_claimed-not_held r c lost,
  )
