-- ===== src/Scenarios/Claims.antt =====
-- The theorems on claims and on the outcomes of operations, at one operation.
use openbao_plugin_secrets_s.Prelude.{
  ℕ, ◌+◌, ◌*◌, ◌/◌, ◌≤◌, ◌≡◌, refl, sym, ap, ◌⊎◌, inl, inr, true, ◌||◌, [], ◌∷◌, none, some, arith,
  string_eq,
}
use openbao_plugin_secrets_s.Records.{
  second, unavailable, failed_terminal, OutboxRecord, GlobalConfig, internal,
}
use openbao_plugin_secrets_s.Storage.{
  Key-discrete, outbox_key, config_key, outbox_value, config_value,
}
use openbao_plugin_secrets_s.Storage.Keeps.{Keeps}
use openbao_plugin_secrets_s.Storage.Triples.{Ends}
use openbao_plugin_secrets_s.Config.{default_global_config}
use openbao_plugin_secrets_s.Outbox.Records.{outbox_due_index_time}
use openbao_plugin_secrets_s.Payload.{CanonicalPayload}
use openbao_plugin_secrets_s.Dispatch.Retry.{should_retry_automatically, retry_delay}
use openbao_plugin_secrets_s.Dispatch.Retry.Bounds.{nominal_delay, retry_delay_bounds}
use openbao_plugin_secrets_s.Dispatch.Claims.{
  with_claim, claim_outbox_record, claim_dispatchable_outbox_record, outbox_record_due,
  outbox_claim_matches, cancel_claimed_outbox_operation,
}
use openbao_plugin_secrets_s.Dispatch.Claims.Exclusion.{
  SwitchedOff, claim-exclusive, claim_dispatchable-SwitchedOff,
}
use openbao_plugin_secrets_s.Dispatch.Claims.Fencing.{FencedBy, NotHeld, claim-Fenced}
use openbao_plugin_secrets_s.Dispatch.Outcomes.{
  OperationFailure, failed_record, commit_claimed_upsert_success, commit_claimed_delete_success,
  mark_claimed_operation_failed,
}
use openbao_plugin_secrets_s.Dispatch.Outcomes.Fencing.{lost_claim-Keeps}
use openbao_plugin_secrets_s.Dispatch.Outcomes.Schedule.{
  Rescheduled, Abandoned, failed_record-cases, failed_record-due, failed_record_thrice,
}
use openbao_plugin_secrets_s.Scenarios.Memory.{Entries, lookup, service}
use openbao_plugin_secrets_s.Scenarios.Runs.{operation}

abbrev now : ℕ
now = 2000 * second

abbrev claimed : OutboxRecord
claimed = with_claim "worker-1" now operation

-- The operation as worker 1 claimed it.
abbrev claimed_contents : Entries
claimed_contents = (outbox_key "op-1", outbox_value claimed) ∷ []

stored_claimed : lookup claimed_contents (outbox_key "op-1") ≡ some (outbox_value claimed)
unfolding lookup Key-discrete
stored_claimed = refl

claim-exclusive_example :
    Ends
      (λ o c. (o ≡ none) × (c ≡ lookup claimed_contents))
      (λ c. c ≡ lookup claimed_contents)
      (claim_dispatchable_outbox_record "op-1" "worker-2" (now + 60 * second) claimed_contents)
claim-exclusive_example =
    (claim-exclusive operation "op-1" "worker-1" "worker-2" now (now + 60 * second)
        (lookup claimed_contents) (λ e. cc e) refl stored_claimed (omega arith)).run
      claimed_contents refl

claim-Fenced_example :
    Ends
      (λ o c. FencedBy operation o c)
      (λ c. Unit {0})
      (claim_outbox_record operation "worker-1" now [])
claim-Fenced_example = (claim-Fenced operation "worker-1" now).run [] tt

-- Another worker claimed the operation in the meantime.
lost : NotHeld operation (lookup claimed_contents)
unfolding lookup outbox_claim_matches
lost x e = refl

abbrev payload : CanonicalPayload
payload = record { format = "json"; bytes = "{}"; sha256 = "sha256:0"; entries = [] }

abbrev failure : OperationFailure
failure = record { class = internal; message = "down"; resolved_name = ""; payload_sha256 = "" }

lost_claim-Keeps_example :
    Keeps
      (λ d. d ≡ lookup claimed_contents)
      (commit_claimed_upsert_success operation "name" payload "v1" now)
    × Keeps
        (λ d. d ≡ lookup claimed_contents)
        (commit_claimed_delete_success operation "name" "v1" now)
    × Keeps (λ d. d ≡ lookup claimed_contents) (mark_claimed_operation_failed operation failure now)
    × Keeps (λ d. d ≡ lookup claimed_contents) (cancel_claimed_outbox_operation operation)
lost_claim-Keeps_example =
    lost_claim-Keeps operation (lookup claimed_contents) "name" "v1" payload failure now lost

abbrev disabled_config : GlobalConfig
disabled_config = record default_global_config { disabled = true }

abbrev disabled_contents : Entries
disabled_contents =
    (config_key, config_value disabled_config) ∷ (outbox_key "op-1", outbox_value operation) ∷ []

disabled-SwitchedOff : SwitchedOff (lookup disabled_contents)
unfolding lookup default_global_config Key-discrete
disabled-SwitchedOff cfg (inl (e, p)) = cc e
disabled-SwitchedOff cfg (inr e) =
    let same : disabled_config ≡ cfg = cc e in
    ap (λ (x : GlobalConfig). x.disabled || x.restore_guard) (sym same)

claim_dispatchable-SwitchedOff_example :
    Ends
      (λ o c. o ≡ none)
      (λ c. Unit {0})
      (claim_dispatchable_outbox_record "op-1" "worker-1" now disabled_contents)
claim_dispatchable-SwitchedOff_example =
    (claim_dispatchable-SwitchedOff "op-1" "worker-1" now).run disabled_contents
      disabled-SwitchedOff

failed_record-cases_example :
    (Rescheduled operation unavailable now ⊎ Abandoned operation unavailable now)
    × ((failed_record operation unavailable now).attempts ≡ 1)
    × ((failed_record operation unavailable now).claim_owner ≡ "")
    × ((failed_record operation unavailable now).claim_attempt ≡ 0)
failed_record-cases_example = failed_record-cases operation unavailable now

due_later : outbox_record_due (failed_record operation unavailable now) (now + 300 * second) ≡ true
unfolding failed_record outbox_record_due outbox_due_index_time should_retry_automatically
    retry_delay
due_later = refl

failed_record-due_example : now / second + 30 ≤ (now + 300 * second) / second
failed_record-due_example =
    failed_record-due operation unavailable now (now + 300 * second) due_later

failed_record_thrice_example :
    (failed_record
      (failed_record (failed_record operation unavailable 1) unavailable 2)
      unavailable
      3).state
    ≡ failed_terminal
failed_record_thrice_example =
    failed_record_thrice operation unavailable unavailable unavailable 1 2 3

retried_once : should_retry_automatically unavailable 1 ≡ true
unfolding should_retry_automatically
retried_once = refl

abbrev tried : OutboxRecord
tried = record operation { attempts = 1 }

retry_delay_bounds_example :
    (nominal_delay 1 ≤ retry_delay tried) × (5 * retry_delay tried ≤ 6 * nominal_delay 1)
retry_delay_bounds_example = retry_delay_bounds unavailable tried retried_once
