-- ===== src/Dispatch/Outcomes/Schedule.antt =====
-- The records that failures leave, and when they are due (dispatcher.go).
use openbao_plugin_secrets_s.Prelude.{
  ℕ, suc, ◌+◌, ◌/◌, ◌≤◌, ◌<◌, ◌≡◌, ◌⊎◌, inl, inr, true, false, arith, Bool-cases,
}
use openbao_plugin_secrets_s.Records.{
  second, blank, ErrorClass, OutboxRecord, retry_wait, failed_terminal,
}
use openbao_plugin_secrets_s.Outbox.Records.{outbox_due_index_time}
use openbao_plugin_secrets_s.Dispatch.Retry.{
  should_retry_automatically, retry_delay, max_automatic_retry_attempts, is_retryable_class,
  retry_base_delay,
}
use openbao_plugin_secrets_s.Dispatch.Retry.Bounds.{
  retry_delay_bounds, few_attempts, base_le_nominal,
}
use openbao_plugin_secrets_s.Dispatch.Claims.{outbox_record_due}
use openbao_plugin_secrets_s.Dispatch.Outcomes.{failed_record}

-- A third failure is final, whatever the classes and the times of the three.
pub failed_record_thrice :
    (r : OutboxRecord) (a b c : ErrorClass) (s t u : ℕ)
    → (failed_record (failed_record (failed_record r a s) b t) c u).state ≡ failed_terminal
unfolding failed_record should_retry_automatically
failed_record_thrice r a b c s t u = ground arith

abbrev pub Rescheduled : OutboxRecord → ErrorClass → ℕ → Type 0
Rescheduled r class now =
    (is_retryable_class class ≡ true)
    × (suc r.attempts < max_automatic_retry_attempts)
    × ((failed_record r class now).state ≡ retry_wait)

abbrev pub Abandoned : OutboxRecord → ErrorClass → ℕ → Type 0
Abandoned r class now =
    ((is_retryable_class class ≡ false) ⊎ (max_automatic_retry_attempts ≤ suc r.attempts))
    × ((failed_record r class now).state ≡ failed_terminal)
    × ((failed_record r class now).not_before ≡ blank)

-- A failure of a retryable class before the third attempt puts the operation back into the queue,
-- and every other one makes it terminal without a schedule; either way the attempt is counted, the
-- claim is given up and its number is kept.
pub failed_record-cases :
    (r : OutboxRecord) (class : ErrorClass) (now : ℕ)
    → (Rescheduled r class now ⊎ Abandoned r class now)
      × ((failed_record r class now).attempts ≡ suc r.attempts)
      × ((failed_record r class now).claim_owner ≡ "")
      × ((failed_record r class now).claim_attempt ≡ r.claim_attempt)
unfolding failed_record should_retry_automatically
failed_record-cases r class now = ground arith

retry_delay_least :
    (class : ErrorClass) (r : OutboxRecord)
    → should_retry_automatically class r.attempts ≡ true
    → retry_base_delay ≤ retry_delay r
retry_delay_least class r e = omega (
  arith,
  base_le_nominal r.attempts (few_attempts class r.attempts e),
  (retry_delay_bounds class r e).0,
)

-- A failed operation that is due again at `later` is one that waited at least 30 seconds, counted
-- in whole seconds.
pub failed_record-due :
    (r : OutboxRecord) (class : ErrorClass) (now later : ℕ)
    → outbox_record_due (failed_record r class now) later ≡ true
    → now / second + 30 ≤ later / second
unfolding failed_record outbox_record_due outbox_due_index_time
failed_record-due r class now later h =
    let counted : OutboxRecord = record r { attempts = suc r.attempts; state = retry_wait } in
    elim (Bool-cases (should_retry_automatically class (suc r.attempts))) [
      | inl e ↦ let due = rw e at h in ground (arith, retry_delay_least class counted e)
      | inr e ↦ let due = rw e at h in ground arith
    ]
