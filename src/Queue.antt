-- ===== src/Queue.antt =====
-- internal/backend/path_queue.go: the queue endpoints. The request's checks that are not about
-- storage (replication state, response fields, metrics) are left out.
pub mod Operations
use openbao_plugin_secrets_s.Prelude.{
  ℕ, suc, ◌-◌, ◌/◌, List, [], ◌∷◌, ◌++◌, Option, none, some, String, ◌==◌, if◌then◌else◌, string_eq,
  nat_eq, ltb, length,
}
use openbao_plugin_secrets_s.Records.{
  second, format_time, parse_time, OutboxState, failed_terminal, canceled, OutboxRecord,
}
use openbao_plugin_secrets_s.Storage.{refused, Env, M, ◌>>=◌, ◌>>◌, pure, throw, option, now_utc}
use openbao_plugin_secrets_s.Outbox.Records.{
  get_outbox, put_outbox, delete_outbox, is_queued_outbox_state, is_outbox_claim_active,
}
use openbao_plugin_secrets_s.Outbox.Listing.{list_outbox_ids_for_state}
use openbao_plugin_secrets_s.Config.{read_global_config}
use openbao_plugin_secrets_s.Payload.{Codec}
use openbao_plugin_secrets_s.Recovery.{recover_incomplete_enqueue_intents_limit}
use openbao_plugin_secrets_s.Dispatch.Claims.{clear_outbox_claim}
use openbao_plugin_secrets_s.Providers.{Plugin}
use openbao_plugin_secrets_s.Dispatch.Process.{process_due_outbox_limit}

pub record QueueSummary : Type 0 where
  pub pending : ℕ
  pub retry_wait : ℕ
  pub claimed : ℕ
  pub terminal : ℕ
  pub oldest_age_seconds : ℕ

abbrev pub retried_record : OutboxRecord → ℕ → OutboxRecord
retried_record r now = clear_outbox_claim (record r {
  attempts = 0;
  state = OutboxState.pending;
  not_before = format_time now;
  updated_time = format_time now;
})

abbrev pub canceled_record : OutboxRecord → ℕ → OutboxRecord
canceled_record r now =
    clear_outbox_claim (record r { state = canceled; updated_time = format_time now })

abbrev default_drain_max_operations : ℕ
default_drain_max_operations = 100

abbrev older_age : Option ℕ → ℕ → ℕ → ℕ
older_age none now age = age
older_age (some created) now age =
    let seconds = (now - created) / second in
    if ltb now created then age else if ltb age seconds then seconds else age

abbrev count_queued : QueueSummary → ℕ → Option OutboxRecord → QueueSummary
count_queued s now none = s
count_queued s now (some r) =
    if is_queued_outbox_state r.state
    then record s {
      claimed = if is_outbox_claim_active r now then suc s.claimed else s.claimed;
      oldest_age_seconds = older_age (parse_time r.created_time) now s.oldest_age_seconds;
    }
    else s

module _ ⦃env : Env⦄ where
  put_retried : OutboxRecord → ℕ → M (Option OutboxRecord)
  put_retried r now = do put_outbox (retried_record r now); pure (some (retried_record r now))

  -- The switch on the state of a record that is not claimed.
  retry_state : OutboxState → OutboxRecord → ℕ → M (Option OutboxRecord)
  retry_state OutboxState.pending r now = pure none
  retry_state OutboxState.retry_wait r now = put_retried r now
  retry_state failed_terminal r now = put_retried r now
  retry_state _ r now = throw (refused "operation is not retryable")

  retry_record : OutboxRecord → M (Option OutboxRecord)
  retry_record r = do
    now ← now_utc
    if is_outbox_claim_active r now
        then throw (refused "operation is currently claimed")
        else retry_state r.state r now

  -- `none` is the empty response.
  pub path_queue_operation_retry : String → M (Option OutboxRecord)
  path_queue_operation_retry id = do r ← get_outbox id; option r (pure none) retry_record

  delete_as : OutboxRecord → Option OutboxRecord → M (Option OutboxRecord)
  delete_as r response = do delete_outbox r; pure response

  cancel_state : OutboxState → OutboxRecord → ℕ → M (Option OutboxRecord)
  cancel_state canceled r now = delete_as r none
  cancel_state OutboxState.pending r now = delete_as r (some (canceled_record r now))
  cancel_state OutboxState.retry_wait r now = delete_as r (some (canceled_record r now))
  cancel_state failed_terminal r now = delete_as r (some (canceled_record r now))
  cancel_state _ r now = throw (refused "operation is not cancelable")

  cancel_record : OutboxRecord → M (Option OutboxRecord)
  cancel_record r = do
    now ← now_utc
    if is_outbox_claim_active r now
        then throw (refused "operation is currently claimed")
        else cancel_state r.state r now

  pub path_queue_operation_cancel : String → M (Option OutboxRecord)
  path_queue_operation_cancel id = do r ← get_outbox id; option r (pure none) cancel_record

  count_ids : List String → ℕ → QueueSummary → M QueueSummary
  count_ids [] now s = pure s
  count_ids (id ∷ ids) now s = do r ← get_outbox id; count_ids ids now (count_queued s now r)

  pub read_queue_summary : ℕ → M QueueSummary
  read_queue_summary now = do
    waiting ← list_outbox_ids_for_state OutboxState.pending
    retrying ← list_outbox_ids_for_state OutboxState.retry_wait
    terminal ← list_outbox_ids_for_state failed_terminal
    count_ids (waiting ++ retrying) now (record {
      pending = length waiting;
      retry_wait = length retrying;
      claimed = 0;
      terminal = length terminal;
      oldest_age_seconds = 0;
    })

  module _ ⦃codec : Codec⦄ (plugin : Plugin) where
    -- The number processed, and the summary.
    pub path_queue_drain : ℕ → M (ℕ × QueueSummary)
    path_queue_drain max_operations = do
      cfg ← read_global_config
      if cfg.disabled
          then throw (refused "secret sync is disabled")
          else if cfg.restore_guard
          then throw (refused "restore guard is active")
          else do
            now ← now_utc
            recover_incomplete_enqueue_intents_limit now 0
            processed ←
                process_due_outbox_limit plugin now
                  (if max_operations == 0 then default_drain_max_operations else max_operations)
            summary ← read_queue_summary now
            pure (processed, summary)
