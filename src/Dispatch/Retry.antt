-- ===== src/Dispatch/Retry.antt =====
-- dispatcher.go: which failures are retried, and after how long. A duration is an int64 of
-- nanoseconds, here its bit pattern below 2 ^ 64: patterns from 2 ^ 63 on are negative.
pub mod Bounds
use Prim.Native.Nat.{ℕ, zero, suc}
use Prim.Native.Char.{Char, code}
use openbao_plugin_secrets_s.Prelude.{
  ◌+◌, ◌-◌, ◌*◌, ◌/◌, ◌%◌, ◌^◌, ◌≤◌, ◌<◌, ◌≡◌, refl, Bool, true, false, not, ◌&&◌, ◌||◌, List, [],
  ◌∷◌, ◌++◌, String, ◌==◌, if◌then◌else◌, string_eq, nat_eq, ltb, leb,
}
use openbao_plugin_secrets_s.Records.{
  second, minute, ErrorClass, rate_limit, unavailable, OutboxRecord,
}
use openbao_plugin_secrets_s.Text.{chars}

abbrev pub max_automatic_retry_attempts : ℕ
max_automatic_retry_attempts = 3

abbrev pub retry_base_delay : ℕ
retry_base_delay = 30 * second

abbrev pub retry_jitter_divisor : ℕ
retry_jitter_divisor = 5

abbrev pub retry_max_delay : ℕ
retry_max_delay = 5 * minute

abbrev pub is_retryable_class : ErrorClass → Bool
is_retryable_class rate_limit = true
is_retryable_class unavailable = true
is_retryable_class _ = false

unfoldable pub should_retry_automatically : ErrorClass → ℕ → Bool
should_retry_automatically class attempts =
    if leb max_automatic_retry_attempts attempts then false else is_retryable_class class

-- `a < b` on int64 patterns.
abbrev pub signed_lt : ℕ → ℕ → Bool
signed_lt a b = ltb ((a + 2 ^ 63) % 2 ^ 64) ((b + 2 ^ 63) % 2 ^ 64)

-- `d << k` drops what leaves the 64 bits.
unfoldable pub shift_left : ℕ → ℕ → ℕ
shift_left d k = d * 2 ^ k % 2 ^ 64

unfoldable pub retry_base_delay_for_attempts : ℕ → ℕ
unfolding shift_left
retry_base_delay_for_attempts attempts =
    if leb attempts 1
    then retry_base_delay
    else let delay = shift_left retry_base_delay (attempts - 1) in
      if signed_lt retry_max_delay delay then retry_max_delay else delay

-- The bytes of a character in UTF-8.
unfoldable pub utf8 : ℕ → List ℕ
utf8 c =
    if ltb c 0x80
    then c ∷ []
    else if ltb c 0x800
    then (0xC0 + c / 64) ∷ (0x80 + c % 64) ∷ []
    else if ltb c 0x10000
    then (0xE0 + c / 4096) ∷ (0x80 + c / 64 % 64) ∷ (0x80 + c % 64) ∷ []
    else (0xF0 + c / 262144) ∷ (0x80 + c / 4096 % 64) ∷ (0x80 + c / 64 % 64) ∷ (0x80 + c % 64) ∷ []

unfoldable pub bytes_of : List Char → List ℕ
unfolding utf8
bytes_of [] = []
bytes_of (c ∷ s) = utf8 (code c) ++ bytes_of s

unfoldable pub jitter_hash : ℕ → ℕ → List ℕ → ℕ
jitter_hash slots hash [] = hash
jitter_hash slots hash (b ∷ bs) = jitter_hash slots ((hash * 31 + b) % slots) bs

-- `hash` stays below `slots` and the attempts are few, so that no product overflows.
unfoldable pub retry_jitter_slot : List ℕ → ℕ → ℕ → ℕ
unfolding jitter_hash
retry_jitter_slot identity attempts slots =
    if leb slots 1 then 0 else (jitter_hash slots 17 identity * 31 + attempts) % slots

-- The fields with a NUL byte between them, for a record without an ID.
unfoldable pub retry_identity : OutboxRecord → List ℕ
unfolding bytes_of
retry_identity r =
    if r.id == ""
    then bytes_of (chars r.path)
      ++ (0
          ∷ (bytes_of (chars r.association_id)
              ++ (0 ∷ (bytes_of (chars r.object_id) ++ (0 ∷ bytes_of (chars r.destination_ref))))))
    else bytes_of (chars r.id)

-- A delay that is not negative and below 2 ^ 63: the caller has it at most `retryMaxDelay`.
unfoldable pub retry_jitter : OutboxRecord → ℕ → ℕ
unfolding retry_jitter_slot retry_identity
retry_jitter r delay =
    let max_jitter_seconds = delay / retry_jitter_divisor / second in
    if max_jitter_seconds == 0
    then 0
    else retry_jitter_slot (retry_identity r) r.attempts (max_jitter_seconds + 1) * second

unfoldable pub retry_delay : OutboxRecord → ℕ
unfolding retry_base_delay_for_attempts retry_jitter
retry_delay r =
    let delay = retry_base_delay_for_attempts r.attempts in
    if leb retry_max_delay delay
    then retry_max_delay
    else let jitter = retry_jitter r delay in
      if ltb retry_max_delay (delay + jitter) then retry_max_delay else delay + jitter
