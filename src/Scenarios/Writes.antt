-- ===== src/Scenarios/Writes.antt =====
-- The theorems on writes, statuses and pruning, at concrete records.
use openbao_plugin_secrets_s.Prelude.{
  ◌+◌, ◌*◌, ◌≤◌, ◌<◌, ◌≡◌, ◌≢◌, ◌↔◌, refl, ◌⊎◌, inl, true, List, [], ◌∷◌, some, String, In, arith,
  length, pos,
}
use openbao_plugin_secrets_s.Records.{
  blank, stamp, second, OutboxRecord, StatusRecord, synced, blank_class, failed_terminal,
  SecretPayload, text,
}
use openbao_plugin_secrets_s.Storage.{◌>>◌, Key-discrete, status_key, status_value, left}
use openbao_plugin_secrets_s.Storage.Triples.{Ends}
use openbao_plugin_secrets_s.Status.{put_status}
use openbao_plugin_secrets_s.Status.Versions.{HasVersion, put_status-HasVersion}
use openbao_plugin_secrets_s.Source.{new_metadata_record}
use openbao_plugin_secrets_s.Payload.{Codec}
use openbao_plugin_secrets_s.Enqueue.Intents.{AllRecorded}
use openbao_plugin_secrets_s.Data.{data_read, DataWritePlan, commit_data_write_plan, check_cas}
use openbao_plugin_secrets_s.Data.Stored.{written, data_read-commit_data_write_plan}
use openbao_plugin_secrets_s.Data.Cas.{CasHolds, check_cas_iff}
use openbao_plugin_secrets_s.Data.Durability.{Recoverable, commit_data_write_plan-Recoverable}
use openbao_plugin_secrets_s.Outbox.Listing.{sort_by}
use openbao_plugin_secrets_s.Outbox.Pruning.{
  terminal_outbox_prune_candidates, is_expired, terminal_outbox_retention_time, select_candidates,
  should_prune_terminal_outbox_record,
}
use openbao_plugin_secrets_s.Outbox.Pruning.Selection.{
  prune_candidates-bound, prune_candidates-excess, prune_candidates-member,
}
use openbao_plugin_secrets_s.Scenarios.Memory.{Entries, lookup, service}
use openbao_plugin_secrets_s.Scenarios.Runs.{operation}

-- Encodings that keep their input apart where the examples need it.
instance abbrev pub plain : Codec
plain = record {
  encode_values = λ _. some "{}";
  encode_bytes = λ _. some "{}";
  sha256 = λ s. s;
  name_digest = λ s. s;
  operation_digest = λ s. s;
  association_digest = λ s. s;
  parse_duration = λ s. some (pos 900);
}

abbrev status : StatusRecord
status = record {
  path = "team/app";
  version = 3;
  association_id = "a-1";
  object_id = "secret-path";
  destination_ref = "fake/main";
  resolved_name = "app";
  state = synced;
  payload_sha256 = "";
  remote_version = "";
  verification = "";
  last_operation_id = "op-1";
  last_success_time = blank;
  last_reconcile_time = blank;
  last_drift_detected_time = blank;
  last_repair_time = blank;
  repair_count = 0;
  last_error_class = blank_class;
  last_error = "";
  updated_time = blank;
}

abbrev status_contents : Entries
status_contents = (status_key "team/app" "a-1" "secret-path", status_value status) ∷ []

abbrev older_status : StatusRecord
older_status = record status { version = 2 }

three_stored : HasVersion (status_key "team/app" "a-1" "secret-path") 3 (lookup status_contents)
unfolding lookup Key-discrete
three_stored = omega arith

put_status-HasVersion_example :
    HasVersion
      (status_key "team/app" "a-1" "secret-path")
      3
      (lookup (left (put_status older_status status_contents)))
put_status-HasVersion_example =
    (put_status-HasVersion (status_key "team/app" "a-1" "secret-path") 3 older_status).at
      status_contents three_stored

abbrev plan : DataWritePlan
plan = record {
  metadata = new_metadata_record "g";
  next_version = 1;
  now_time = 2000 * second;
  now = stamp 2000;
  association_reservation_updates = [];
  operations = operation ∷ [];
  is_eligible = true;
}

abbrev payload : SecretPayload
payload = ("password", text "hunter2") ∷ []

commit_data_write_plan-Recoverable_example :
    Ends
      (λ _ c. AllRecorded (operation ∷ []) c)
      (Recoverable "team/app" plan)
      (commit_data_write_plan "team/app" payload plan [])
unfolding lookup
commit_data_write_plan-Recoverable_example =
    (commit_data_write_plan-Recoverable "team/app" payload plan).run [] refl

check_cas_iff_example :
    (check_cas (new_metadata_record "g") (some 1) ≡ true)
    ↔ CasHolds (new_metadata_record "g") (some 1)
check_cas_iff_example = check_cas_iff (new_metadata_record "g") (some 1)

abbrev terminal : String → OutboxRecord
terminal id = record operation { id = id; state = failed_terminal }

abbrev three : List OutboxRecord
three = terminal "a" ∷ terminal "b" ∷ terminal "c" ∷ []

prune_candidates-bound_example :
    length (terminal_outbox_prune_candidates three (2000 * second) 1 1 1) ≤ 2
prune_candidates-bound_example =
    prune_candidates-bound three (2000 * second) 1 1 1 (omega arith) (omega arith)

prune_candidates-excess_example :
    3 ≤ 1 + length (terminal_outbox_prune_candidates three (2000 * second) 1 1 0)
prune_candidates-excess_example = prune_candidates-excess three (2000 * second) 1 1 0 refl

first_selected : In (terminal "a") (terminal_outbox_prune_candidates three (2000 * second) 1 1 1)
unfolding terminal_outbox_prune_candidates select_candidates should_prune_terminal_outbox_record
    is_expired sort_by terminal_outbox_retention_time
first_selected = inl refl

prune_candidates-member_example :
    In (terminal "a") three × ((1 < 3) ⊎ (is_expired (2000 * second) (terminal "a") ≡ true))
prune_candidates-member_example =
    prune_candidates-member three (2000 * second) 1 1 1 (terminal "a") first_selected

next_not_zero : plan.next_version ≢ 0
next_not_zero e = cc e

data_read-commit_data_write_plan_example :
    Ends
      (λ r c. r ≡ some (written payload plan))
      (λ c. Unit {0})
      ((do commit_data_write_plan "team/app" payload plan; data_read "team/app" 0) [])
data_read-commit_data_write_plan_example =
    (data_read-commit_data_write_plan "team/app" payload plan 0 next_not_zero (inl refl)).run [] tt
