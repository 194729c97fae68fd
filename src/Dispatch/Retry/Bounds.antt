-- ===== src/Dispatch/Retry/Bounds.antt =====
-- The delays of retries (dispatcher.go).
use openbao_plugin_secrets_s.Prelude.{
  ℕ, zero, suc, ◌+◌, ◌-◌, ◌*◌, ◌/◌, ◌%◌, ◌^◌, ◌≤◌, ◌<◌, ◌≡◌, refl, true, false, List, arith,
  string_eq, leb,
}
use openbao_plugin_secrets_s.Records.{second, ErrorClass, OutboxRecord}
use openbao_plugin_secrets_s.Dispatch.Retry.{
  should_retry_automatically, retry_delay, retry_base_delay, retry_base_delay_for_attempts,
  retry_jitter, retry_jitter_slot, retry_identity, shift_left, max_automatic_retry_attempts,
  retry_max_delay,
}

-- The delay before the spread: 30 seconds, doubled for each attempt after the first.
abbrev pub nominal_delay : ℕ → ℕ
nominal_delay attempts = retry_base_delay * 2 ^ (attempts - 1)

slot_lt : (h slots : ℕ) → leb slots 1 ≡ false → h % slots < slots
slot_lt h slots e = ground arith

retry_jitter_slot_lt :
    (bs : List ℕ) (attempts slots : ℕ) → 1 < slots → retry_jitter_slot bs attempts slots < slots
unfolding retry_jitter_slot
retry_jitter_slot_lt bs attempts slots h = ground arith

pub few_attempts :
    (class : ErrorClass) (n : ℕ)
    → should_retry_automatically class n ≡ true
    → n < max_automatic_retry_attempts
unfolding should_retry_automatically
few_attempts class n h = ground arith

base_delay_lem :
    (n : ℕ) → n < max_automatic_retry_attempts → retry_base_delay_for_attempts n ≡ nominal_delay n
unfolding retry_base_delay_for_attempts shift_left
base_delay_lem zero h = refl
base_delay_lem (suc zero) h = refl
base_delay_lem (suc (suc zero)) h = refl
base_delay_lem (suc (suc (suc n))) h = omega arith

jitter_le : (r : OutboxRecord) (delay : ℕ) → 5 * retry_jitter r delay ≤ delay
unfolding retry_jitter
jitter_le r delay =
    ground (arith, retry_jitter_slot_lt (retry_identity r) r.attempts (delay / 5 / second + 1))

nominal_lt : (n : ℕ) → n < max_automatic_retry_attempts → 6 * nominal_delay n ≤ 5 * retry_max_delay
nominal_lt zero h = omega arith
nominal_lt (suc zero) h = omega arith
nominal_lt (suc (suc zero)) h = omega arith
nominal_lt (suc (suc (suc n))) h = omega arith

pub base_le_nominal :
    (n : ℕ) → n < max_automatic_retry_attempts → retry_base_delay ≤ nominal_delay n
base_le_nominal zero h = omega arith
base_le_nominal (suc zero) h = omega arith
base_le_nominal (suc (suc zero)) h = omega arith
base_le_nominal (suc (suc (suc n))) h = omega arith

-- For every number of attempts at which the dispatcher retries, the delay of the retry is at least
-- the doubled base delay and exceeds it by a fifth at most.
pub retry_delay_bounds :
    (class : ErrorClass) (r : OutboxRecord)
    → should_retry_automatically class r.attempts ≡ true
    → (nominal_delay r.attempts ≤ retry_delay r)
      × (5 * retry_delay r ≤ 6 * nominal_delay r.attempts)
unfolding retry_delay
retry_delay_bounds class r h =
    let few = few_attempts class r.attempts h in
    ground (
      arith,
      base_delay_lem r.attempts few,
      nominal_lt r.attempts few,
      jitter_le r (nominal_delay r.attempts),
    )
