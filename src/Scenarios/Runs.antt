-- ===== src/Scenarios/Runs.antt =====
-- The theorems at concrete operations, on the storage of the examples.
use openbao_plugin_secrets_s.Prelude.{
  ◌≡◌, ◌*◌, refl, [], ◌∷◌, none, some, string_eq, In, All, arith,
}
use openbao_plugin_secrets_s.Records.{
  blank, stamp, second, upsert, pending, failed_terminal, OutboxRecord, outbox_trigger_user,
}
use openbao_plugin_secrets_s.Storage.{
  Key-discrete, outbox_key, outbox_by_path_key, outbox_by_state_key, outbox_by_due_key,
  outbox_value, id_value, update, IsStored,
}
use openbao_plugin_secrets_s.Storage.Triples.{Ends}
use openbao_plugin_secrets_s.Outbox.Records.{
  put_outbox, delete_outbox, outbox_index_keys, outbox_due_index_time,
}
use openbao_plugin_secrets_s.Outbox.Records.Indexed.{Indexed, Indexed-put_record}
use openbao_plugin_secrets_s.Outbox.Records.Indexing.{put_outbox-Indexed, delete_outbox-Indexed}
use openbao_plugin_secrets_s.Queue.{path_queue_operation_retry, path_queue_operation_cancel}
use openbao_plugin_secrets_s.Queue.Operations.{
  Retried, Canceled, path_queue_operation_retry-Retried, path_queue_operation_cancel-Canceled,
}
use openbao_plugin_secrets_s.Scenarios.Memory.{Entries, lookup, service}
use openbao_plugin_secrets_s.Outbox.Listing.{list_due_outbox_ids}
use openbao_plugin_secrets_s.Outbox.Listing.Due.{list_due_outbox_ids_complete}

abbrev pub operation : OutboxRecord
operation = record {
  id = "op-1";
  type = upsert;
  path = "team/app";
  version = 1;
  association_id = "a-1";
  object_id = "secret-path";
  destination_ref = "fake/main";
  state = pending;
  attempts = 0;
  not_before = stamp 1000;
  created_time = stamp 1000;
  updated_time = stamp 1000;
  idempotency_key = "op-1";
  trigger = outbox_trigger_user;
  claim_owner = "";
  claim_expires_time = blank;
  claim_attempt = 0;
}

empty-Indexed : Indexed (lookup [])
unfolding lookup
empty-Indexed id r e = cc e

put_outbox-Indexed_example :
    Ends
      (λ _ c. Indexed c × (c (outbox_key "op-1") ≡ some (outbox_value operation)))
      Indexed
      (put_outbox operation [])
put_outbox-Indexed_example = (put_outbox-Indexed operation).run [] empty-Indexed

delete_outbox-Indexed_example :
    Ends (λ _ c. Indexed c × (c (outbox_key "op-1") ≡ none)) Indexed (delete_outbox operation [])
delete_outbox-Indexed_example = (delete_outbox-Indexed operation).run [] empty-Indexed

abbrev index_entries : Entries
index_entries =
    (outbox_by_path_key "team/app" "op-1", id_value "op-1")
    ∷ (outbox_by_state_key pending "op-1", id_value "op-1")
    ∷ (outbox_by_due_key 1000 "op-1", id_value "op-1")
    ∷ []

abbrev pub queued : Entries
queued = (outbox_key "op-1", outbox_value operation) ∷ index_entries

index_entries-Indexed : Indexed (lookup index_entries)
unfolding lookup Key-discrete
index_entries-Indexed id r e = cc e

operation_keys-IsStored : All (IsStored (lookup index_entries)) (outbox_index_keys operation)
unfolding lookup Key-discrete outbox_index_keys outbox_due_index_time
operation_keys-IsStored =
    ((id_value "op-1", refl), ((id_value "op-1", refl), ((id_value "op-1", refl), tt)))

pub queued-Indexed :
    Indexed (lookup queued) × (lookup queued (outbox_key "op-1") ≡ some (outbox_value operation))
unfolding lookup update Key-discrete
queued-Indexed = (
  Indexed-put_record (lookup index_entries) operation operation_keys-IsStored index_entries-Indexed,
  refl,
)

due_at_1000 : outbox_due_index_time operation ≡ some 1000
unfolding outbox_due_index_time
due_at_1000 = refl

list_due_outbox_ids_complete_example :
    Ends (λ ids c. In "op-1" ids) (λ c. Unit {0}) (list_due_outbox_ids (2000 * second) queued)
list_due_outbox_ids_complete_example =
    (list_due_outbox_ids_complete operation (2000 * second) 1000 due_at_1000 (omega arith)
        (λ e. cc e)).run
      queued queued-Indexed

-- An operation that failed three times.
abbrev exhausted : OutboxRecord
exhausted = record operation { state = failed_terminal; attempts = 3; not_before = blank }

abbrev exhausted_index_entries : Entries
exhausted_index_entries =
    (outbox_by_path_key "team/app" "op-1", id_value "op-1")
    ∷ (outbox_by_state_key failed_terminal "op-1", id_value "op-1")
    ∷ []

abbrev failed : Entries
failed = (outbox_key "op-1", outbox_value exhausted) ∷ exhausted_index_entries

exhausted_index_entries-Indexed : Indexed (lookup exhausted_index_entries)
unfolding lookup Key-discrete
exhausted_index_entries-Indexed id r e = cc e

exhausted_keys-IsStored :
    All (IsStored (lookup exhausted_index_entries)) (outbox_index_keys exhausted)
unfolding lookup Key-discrete outbox_index_keys outbox_due_index_time
exhausted_keys-IsStored = ((id_value "op-1", refl), ((id_value "op-1", refl), tt))

failed-Indexed : Indexed (lookup failed)
unfolding lookup update Key-discrete
failed-Indexed =
    Indexed-put_record (lookup exhausted_index_entries) exhausted exhausted_keys-IsStored
      exhausted_index_entries-Indexed

path_queue_operation_retry-Retried_example :
    Ends (λ o c. Indexed c × Retried o c) Indexed (path_queue_operation_retry "op-1" failed)
path_queue_operation_retry-Retried_example =
    (path_queue_operation_retry-Retried "op-1").run failed failed-Indexed

path_queue_operation_cancel-Canceled_example :
    Ends (λ o c. Indexed c × Canceled o c) Indexed (path_queue_operation_cancel "op-1" queued)
path_queue_operation_cancel-Canceled_example =
    (path_queue_operation_cancel-Canceled "op-1").run queued queued-Indexed.0
