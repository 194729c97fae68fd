-- ===== src/Queue/Operations.antt =====
-- The retry and the cancellation of an operation by a request (path_queue.go).
use openbao_plugin_secrets_s.Prelude.{ℕ, ◌≡◌, refl, Option, none, some, String}
use openbao_plugin_secrets_s.Records.{
  OutboxRecord, OutboxState, pending, retry_wait, failed_terminal, canceled, blank_state,
  other_state,
}
use openbao_plugin_secrets_s.Storage.{outbox_key, outbox_value, Contents, Env}
use openbao_plugin_secrets_s.Storage.Keeps.{Keeps-now}
use openbao_plugin_secrets_s.Storage.Triples.{
  Triple, Triple-bind, Triple-then, Triple-pure, Triple-throw, Triple-if, Triple-option,
}
use openbao_plugin_secrets_s.Outbox.Records.{is_outbox_claim_active}
use openbao_plugin_secrets_s.Outbox.Records.Frame.{Keeps-get_outbox}
use openbao_plugin_secrets_s.Outbox.Records.Indexed.{Indexed}
use openbao_plugin_secrets_s.Outbox.Records.Indexing.{put_outbox-Indexed, delete_outbox-Indexed}
use openbao_plugin_secrets_s.Queue.{
  path_queue_operation_retry, retry_record, retry_state, put_retried, retried_record,
  path_queue_operation_cancel, cancel_record, cancel_state, delete_as,
}

-- The response of a retry: the operation is stored as new, without attempts and without a claim.
abbrev pub Retried : Option OutboxRecord → Contents → Type 0
Retried none c = Unit
Retried (some x) c =
    (c (outbox_key x.id) ≡ some (outbox_value x))
    × (x.state ≡ pending)
    × (x.attempts ≡ 0)
    × (x.claim_owner ≡ "")

-- The response of a cancellation: the operation is canceled, and no longer stored.
abbrev pub Canceled : Option OutboxRecord → Contents → Type 0
Canceled none c = Unit
Canceled (some x) c = (c (outbox_key x.id) ≡ none) × (x.state ≡ canceled)

module _ ⦃env : Env⦄ where
  Triple-put_retried :
      (r : OutboxRecord) (now : ℕ)
      → Triple Indexed (put_retried r now) (λ o c. Indexed c × Retried o c) Indexed
  unfolding put_retried
  Triple-put_retried r now =
      Triple-bind _ _ _ (put_outbox-Indexed (retried_record r now))
        λ _. Triple-pure _ (λ c h. (h.0, (h.1, refl, refl, refl)))

  Triple-retry_state :
      (s : OutboxState) (r : OutboxRecord) (now : ℕ)
      → Triple Indexed (retry_state s r now) (λ o c. Indexed c × Retried o c) Indexed
  unfolding retry_state
  Triple-retry_state pending r now = Triple-pure none (λ c h. (h, tt))
  Triple-retry_state retry_wait r now = Triple-put_retried r now
  Triple-retry_state failed_terminal r now = Triple-put_retried r now
  Triple-retry_state canceled r now = Triple-throw _ (λ c h. h)
  Triple-retry_state blank_state r now = Triple-throw _ (λ c h. h)
  Triple-retry_state (other_state t) r now = Triple-throw _ (λ c h. h)

  -- If every stored operation is in its indexes, it is so after a retry by a request too, wherever the
  -- storage fails, and an operation that is returned is stored as pending, without attempts and
  -- without a claim.
  pub path_queue_operation_retry-Retried :
      (id : String)
      → Triple Indexed (path_queue_operation_retry id) (λ o c. Indexed c × Retried o c) Indexed
  unfolding path_queue_operation_retry retry_record
  path_queue_operation_retry-Retried id =
      Triple-then _ _ (Keeps-get_outbox id) (λ c h. h)
        λ o.
          Triple-option o _ _ (λ _. Triple-pure none (λ c h. (h, tt)))
            λ r _.
              Triple-then _ _ Keeps-now (λ c h. h)
                λ now.
                  Triple-if (is_outbox_claim_active r now) _ _ (λ _. Triple-throw _ (λ c h. h))
                    λ _. Triple-retry_state r.state r now

  Triple-delete_as :
      (r : OutboxRecord) (response : Option OutboxRecord)
      → ((c : Contents) → c (outbox_key r.id) ≡ none → Canceled response c)
      → Triple Indexed (delete_as r response) (λ o c. Indexed c × Canceled o c) Indexed
  unfolding delete_as
  Triple-delete_as r response f =
      Triple-bind _ _ _ (delete_outbox-Indexed r) λ _. Triple-pure response (λ c h. (h.0, f c h.1))

  Triple-cancel_state :
      (s : OutboxState) (r : OutboxRecord) (now : ℕ)
      → Triple Indexed (cancel_state s r now) (λ o c. Indexed c × Canceled o c) Indexed
  unfolding cancel_state
  Triple-cancel_state canceled r now = Triple-delete_as r none (λ c e. tt)
  Triple-cancel_state pending r now = Triple-delete_as r _ (λ c e. (e, refl))
  Triple-cancel_state retry_wait r now = Triple-delete_as r _ (λ c e. (e, refl))
  Triple-cancel_state failed_terminal r now = Triple-delete_as r _ (λ c e. (e, refl))
  Triple-cancel_state blank_state r now = Triple-throw _ (λ c h. h)
  Triple-cancel_state (other_state t) r now = Triple-throw _ (λ c h. h)

  -- If every stored operation is in its indexes, it is so after a cancellation by a request too,
  -- wherever the storage fails, and an operation that is returned is canceled and no longer stored.
  pub path_queue_operation_cancel-Canceled :
      (id : String)
      → Triple Indexed (path_queue_operation_cancel id) (λ o c. Indexed c × Canceled o c) Indexed
  unfolding path_queue_operation_cancel cancel_record
  path_queue_operation_cancel-Canceled id =
      Triple-then _ _ (Keeps-get_outbox id) (λ c h. h)
        λ o.
          Triple-option o _ _ (λ _. Triple-pure none (λ c h. (h, tt)))
            λ r _.
              Triple-then _ _ Keeps-now (λ c h. h)
                λ now.
                  Triple-if (is_outbox_claim_active r now) _ _ (λ _. Triple-throw _ (λ c h. h))
                    λ _. Triple-cancel_state r.state r now
