-- ===== src/Dispatch/Claims.antt =====
-- dispatcher.go: the claim of an operation by a worker, and the commit that needs it.
pub mod Exclusion
pub mod Fencing
use openbao_plugin_secrets_s.Prelude.{
  ℕ, suc, ◌+◌, ◌*◌, ◌/◌, Bool, true, false, not, ◌&&◌, ◌||◌, Option, none, some, String, ◌==◌,
  if◌then◌else◌, string_eq, nat_eq, ltb, leb,
}
use openbao_plugin_secrets_s.Records.{
  second, minute, Stamp, blank, stamp, stamp_eq, format_time, OperationType, upsert, delete,
  unknown_type, OutboxRecord, GlobalConfig,
}
use openbao_plugin_secrets_s.Storage.{Env, M, ◌>>=◌, ◌>>◌, pure, option}
use openbao_plugin_secrets_s.Outbox.Records.{
  get_outbox, put_outbox, delete_outbox, is_queued_outbox_state, outbox_due_index_time,
  is_outbox_claim_active,
}
use openbao_plugin_secrets_s.Outbox.Listing.{holds}
use openbao_plugin_secrets_s.Config.{read_global_config}

abbrev pub outbox_claim_lease : ℕ
outbox_claim_lease = 5 * minute

abbrev pub is_dispatchable_type : OperationType → Bool
is_dispatchable_type upsert = true
is_dispatchable_type delete = true
is_dispatchable_type (unknown_type _) = false

abbrev pub is_supported_operation : OutboxRecord → Bool
is_supported_operation r = if r.object_id == "" then false else is_dispatchable_type r.type

unfoldable pub outbox_record_due : OutboxRecord → ℕ → Bool
outbox_record_due r now = holds (λ d. leb d (now / second)) (outbox_due_index_time r)

-- The attempt stays, so that a later claim cannot match a stale worker.
abbrev pub clear_outbox_claim : OutboxRecord → OutboxRecord
clear_outbox_claim r = record r { claim_owner = ""; claim_expires_time = blank }

abbrev pub with_claim : String → ℕ → OutboxRecord → OutboxRecord
with_claim owner now r = record r {
  claim_owner = owner;
  claim_expires_time = format_time (now + outbox_claim_lease);
  claim_attempt = suc r.claim_attempt;
  updated_time = format_time now;
}

abbrev same_claim : OutboxRecord → OutboxRecord → Bool
same_claim current claimed =
    current.claim_owner == claimed.claim_owner
    && current.claim_expires_time == claimed.claim_expires_time
    && current.claim_attempt == claimed.claim_attempt

unfoldable pub outbox_claim_matches : Option OutboxRecord → OutboxRecord → Bool
outbox_claim_matches none claimed = false
outbox_claim_matches (some current) claimed =
    not (claimed.claim_owner == "") && same_claim current claimed

module _ ⦃env : Env⦄ where
  abbrev confirmed : OutboxRecord → Option OutboxRecord → Option OutboxRecord
  confirmed claim none = none
  confirmed claim (some stored) = if same_claim stored claim then some stored else none

  -- `none` is that the operation is not claimed.
  pub claim_outbox_record : OutboxRecord → String → ℕ → M (Option OutboxRecord)
  claim_outbox_record r owner now = if is_outbox_claim_active r now then pure none else do
    put_outbox (with_claim owner now r)
    stored ← get_outbox r.id
    pure (confirmed (with_claim owner now r) stored)

  -- The telemetry of a blocked mutation is left out.
  pub claim_blocked_by_global_switch : M Bool
  claim_blocked_by_global_switch = do
    cfg ← read_global_config
    pure (cfg.disabled || cfg.restore_guard)

  claim_supported : OutboxRecord → String → ℕ → M (Option OutboxRecord)
  claim_supported r owner now = do
    blocked ← claim_blocked_by_global_switch
    if blocked then pure none else claim_outbox_record r owner now

  discard_unsupported_outbox_operation : OutboxRecord → M (Option OutboxRecord)
  discard_unsupported_outbox_operation r = do delete_outbox r; pure none

  claim_due : String → ℕ → OutboxRecord → M (Option OutboxRecord)
  claim_due owner now r =
      if not (is_queued_outbox_state r.state) || not (outbox_record_due r now)
      then pure none
      else if not (is_supported_operation r)
      then discard_unsupported_outbox_operation r
      else claim_supported r owner now

  pub claim_dispatchable_outbox_record : String → String → ℕ → M (Option OutboxRecord)
  claim_dispatchable_outbox_record id owner now = do
    r ← get_outbox id
    option r (pure none) (claim_due owner now)

  -- The claim is read again under the queue's lock before the commit.
  pub commit_if_outbox_claim_held : OutboxRecord → M (Unit {0}) → M Bool
  commit_if_outbox_claim_held r commit = do
    current ← get_outbox r.id
    if outbox_claim_matches current r then (do commit; pure true) else pure false

  pub cancel_claimed_outbox_operation : OutboxRecord → M (Unit {0})
  cancel_claimed_outbox_operation r = do
    _ ← commit_if_outbox_claim_held r (delete_outbox r)
    pure tt
